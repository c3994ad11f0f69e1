-- ===== src/OpQueue/Cancelling.antt =====
-- The contexts of the tasks in every state that the goroutines can reach: what a goroutine gets
-- from beginRun after its task has left the queue.
use nimo_os.Base.{
  ℕ, ◌≡◌, refl, Bool, true, false, ◌||◌, List, [], ◌∷◌, ◌++◌, some, arith, any, Bool-cases, inl,
  inr, ◌==◌,
}
use nimo_os.Text.{Text, eqb, elem}
use nimo_os.Text.Laws.{eqb_iff, eqb_refl}
use nimo_os.OpQueue.{contexts}
use nimo_os.Maps.{Map, lookup, delete, put, remove}
use nimo_os.Maps.Laws.{elem-remove, elem-append, lookup-put, lookup-delete}

abbrev pub in_list : ℕ → List ℕ → Bool
in_list c cs = any (λ d. d == c) cs

-- The fields `ids`, `ctx_of`, `cancel_of` and `cancelled`.
pub record IsGuarded (ids : List Text) (ctx cancel : Map ℕ) (cancelled : List ℕ) : Type 0 where
  pub same : (i : Text) → lookup i cancel ≡ lookup i ctx
  pub queued : (i : Text) → elem i ids ≡ true → (c : ℕ) × (lookup i ctx ≡ some c)
  pub left :
      (i : Text) (c : ℕ) → lookup i ctx ≡ some c → elem i ids ≡ false → in_list c cancelled ≡ true

pub empty-IsGuarded : IsGuarded [] [] [] []
unfolding lookup elem
empty-IsGuarded = record { same = λ i. refl; queued = λ i h. cc; left = λ i c h. cc }

pub any-append : (c : ℕ) (xs ys : List ℕ) → in_list c (xs ++ ys) ≡ (in_list c xs || in_list c ys)
any-append c [] ys = refl
any-append c (x ∷ xs) ys = ground (arith, any-append c xs ys)

pub lookup-contexts :
    (i : Text) (c : ℕ) (m : Map ℕ) → lookup i m ≡ some c → in_list c (contexts m) ≡ true
unfolding lookup
lookup-contexts i c [] h = cc
lookup-contexts i c ((j, d) ∷ m) h = ground (arith, lookup-contexts i c m)

module _ (ids : List Text) (ctx cancel : Map ℕ) (cancelled : List ℕ)
    (h : IsGuarded ids ctx cancel cancelled) where
  pub admit-IsGuarded :
      (id : Text) (c : ℕ) → IsGuarded (ids ++ id ∷ []) (put id c ctx) (put id c cancel) cancelled
  unfolding elem
  admit-IsGuarded id c = record {
    same = λ i. ground (arith, lookup-put i id c ctx, lookup-put i id c cancel, h.same i);
    queued = λ i a. elim (Bool-cases (eqb id i)) [
      | inl e ↦ (c, ground (arith, lookup-put i id c ctx))
      | inr e ↦
          let (d, k) = h.queued i (ground (arith, elem-append i ids (id ∷ []))) in
          (d, ground (arith, lookup-put i id c ctx))
    ];
    left = λ i d a b.
        ground (arith, lookup-put i id c ctx, elem-append i ids (id ∷ []), h.left i d, eqb_refl i);
  }

  pub retire-IsGuarded :
      (id : Text) → IsGuarded (remove id ids) (delete id ctx) (delete id cancel) cancelled
  retire-IsGuarded id = record {
    same = λ i. ground (arith, lookup-delete i id ctx, lookup-delete i id cancel, h.same i);
    queued = λ i a.
        let (d, k) = h.queued i (ground (arith, elem-remove i id ids)) in
        (d, ground (arith, lookup-delete i id ctx, elem-remove i id ids));
    left = λ i d a b. ground (arith, lookup-delete i id ctx, elem-remove i id ids, h.left i d);
  }

  pub cancel-IsGuarded :
      (id : Text) (c : ℕ)
      → lookup id cancel ≡ some c
      → IsGuarded (remove id ids) ctx cancel (c ∷ cancelled)
  cancel-IsGuarded id c own = record {
    same = h.same;
    queued = λ i a. h.queued i (ground (arith, elem-remove i id ids));
    left = λ i d a b. ground (arith, elem-remove i id ids, h.left i d, h.same i, eqb_iff id i);
  }

  pub signal-IsGuarded : (c : ℕ) → IsGuarded ids ctx cancel (c ∷ cancelled)
  signal-IsGuarded c = record {
    same = h.same;
    queued = h.queued;
    left = λ i d a b. ground (arith, h.left i d a b);
  }

  pub clear-IsGuarded : IsGuarded [] ctx cancel (contexts cancel ++ cancelled)
  unfolding elem
  clear-IsGuarded = record {
    same = h.same;
    queued = λ i a. cc;
    left = λ i d a b.
        ground
          (arith, h.same i, lookup-contexts i d cancel, any-append d (contexts cancel) cancelled);
  }
