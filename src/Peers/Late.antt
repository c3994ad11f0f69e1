-- ===== src/Peers/Late.antt =====
-- A session that finds that it was not superseded, and is superseded before it announces its end.
use nimo_os.Peers.{Client, Center, register_client, test_left, announce_left}

-- The session is lost, and a new one of the same peer registers before its peer-left is taken up.
abbrev pub left_late : Client → Client → Center → Center
left_late old c h = announce_left old (register_client c (test_left old h)).0
