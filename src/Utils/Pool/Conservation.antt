-- ===== src/Utils/Pool/Conservation.antt =====
-- The objects of an ObjectPool over its calls (include/Utils/CommonObjectPool.h).
use mathlib.Core.List.{Perm, perm_middle}
use mathlib.Core.List.Perm
use traffic_inspector.Base.{
  ℕ, ◌≡◌, refl, subst, ◌==◌, ==_iff, Bool-cases, Option-cases, inl, inr, true, false, List, [], ◌∷◌,
  ◌++◌, append_assoc, none, some, arith, ◌≢◌, ap, ◌∙◌, if◌then◌else◌,
}
use traffic_inspector.Utils.Pool.{
  ObjectPool, get_object, put_object, remove, release, PoolCall, gets, releases, call, run, clear,
  destroy,
}

abbrev pub all_objects : ObjectPool → List ℕ
all_objects p = p.container ++ p.lent

remove-perm : (x : ℕ) (ys zs : List ℕ) → remove x ys ≡ some zs → Perm (x ∷ zs) ys
unfolding remove
remove-perm x [] zs e = absurd (cc)
remove-perm x (y ∷ ys) zs e = elim (Bool-cases (x == y)) [
  | inl t ↦
      let q : x ≡ y = (==_iff x y).0 t in let r : ys ≡ zs = ground arith in rw (q, r) (Perm.refl _)
  | inr t ↦ elim (Option-cases (remove x ys)) [
    | inl n ↦ absurd (ground arith)
    | inr (ws, n) ↦
        let r : y ∷ ws ≡ zs = ground arith in
        subst (λ l. Perm (x ∷ l) (y ∷ ys)) r
          (Perm.trans (Perm.swap y x ws) (Perm.cons y (remove-perm x ys ws n)))
  ]
]

get-perm :
    (p q : ObjectPool) (x : ℕ) (c : List ℕ)
    → p.container ≡ c
    → get_object p ≡ some (x, q)
    → Perm (all_objects q) (all_objects p) × (q.locked ≡ p.locked)
unfolding get_object
get-perm p q x [] c e = absurd (ground arith)
get-perm p q x (y ∷ rest) c e =
    let l : p.locked ≡ false = ground arith in
    let r : q ≡ record p { container = rest; lent = y ∷ p.lent } = ground arith in
    rw (r, c) (perm_middle rest p.lent, refl)

release-perm :
    (p q : ObjectPool) (x : ℕ)
    → release x p ≡ some q
    → Perm (all_objects q) (all_objects p) × (q.locked ≡ p.locked)
unfolding release put_object
release-perm p q x e = elim (Option-cases (remove x p.lent)) [
  | inl n ↦ absurd (ground arith)
  | inr (zs, n) ↦
      let l : p.locked ≡ false = ground arith in
      let r : q ≡ record p { container = p.container ++ (x ∷ []); lent = zs } = ground arith in
      rw r (
        rw (append_assoc p.container (x ∷ []) zs)
            (Perm.append (Perm.refl p.container) (remove-perm x p.lent zs n)),
        refl,
      )
]

call-perm :
    (c : PoolCall) (p q : ObjectPool)
    → call c p ≡ some q
    → Perm (all_objects q) (all_objects p) × (q.locked ≡ p.locked)
unfolding call
call-perm gets p q e = elim (Option-cases (get_object p)) [
  | inl n ↦ absurd (ground arith)
  | inr ((x, r), n) ↦
      let s : r ≡ q = ground arith in get-perm p q x p.container refl (n ∙ ap (λ z. some (x, z)) s)
]
call-perm (releases x) p q e = release-perm p q x e

-- After any calls that return, the free objects and the lent ones together are what they were, and
-- the lock is as it was.
pub run-perm :
    (cs : List PoolCall) (p q : ObjectPool)
    → run cs p ≡ some q
    → Perm (all_objects q) (all_objects p) × (q.locked ≡ p.locked)
unfolding run
run-perm [] p q e = let r : p ≡ q = ground arith in rw r (Perm.refl _, refl)
run-perm (c ∷ cs) p q e = elim (Option-cases (call c p)) [
  | inl n ↦ absurd (ground arith)
  | inr (r, n) ↦
      let a = call-perm c p r n in
      let b = run-perm cs r q (ground arith) in (Perm.trans b.0 a.0, b.1 ∙ a.1)
]

clear-locked : (c : List ℕ) (p : ObjectPool) → p.locked ≡ true → c ≢ [] → clear c p ≡ none
unfolding clear put_object
clear-locked [] p l h = absurd (h refl)
clear-locked (x ∷ xs) p l h = rw (l, put_object)

-- The destructor returns, with an empty pool and a free lock, exactly when the lock is free and no
-- object is; where an object is free, it waits for the lock, or holds the lock that the object's
-- deleter waits for, and does not return.
pub destroy_returns :
    (p : ObjectPool)
    → destroy p ≡ (
        if p.locked then none else (elim p.container [
          | [] ↦ some (record p { container = []; locked = false })
          | x ∷ xs ↦ none
        ]))
unfolding destroy clear
destroy_returns p = ap (λ q. if p.locked then none else q) (go p.container)
  where
    go :
        (c : List ℕ)
        → (elim (clear c (record p { container = []; locked = true })) [
          | none ↦ none
          | some q ↦ some (record q { locked = false })
        ])
          ≡ (elim c [ [] ↦ some (record p { container = []; locked = false }) | x ∷ xs ↦ none ])
    go [] = refl
    go (x ∷ xs) =
        rw (clear-locked (x ∷ xs) (record p { container = []; locked = true }) refl (λ e. cc)) refl
