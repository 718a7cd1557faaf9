-- ===== src/Worker/System/Joined.antt =====
-- The destructor of include/PacketProcessor.hpp behind shutdown messages.
use traffic_inspector.Base.{
  ℕ, zero, suc, ◌≤◌, ◌<◌, ◌≡◌, ◌⊎◌, inl, inr, refl, sym, ◌∙◌, ◌==◌, Bool, true, false, All, some,
  subst, arith,
}
use traffic_inspector.Worker.{Settings}
use traffic_inspector.Worker.System.{
  Place, at_test, at_get, ended, System, SystemRun, here, all_ended, destruct,
}
use traffic_inspector.Worker.System.Invariant.{HasShutdown}
use traffic_inspector.Worker.System.Drain.{HasReadableKey, SystemRun-append, Drained, drain}

all_ended-suc :
    (n : ℕ) (p : ℕ → Place) → p n ≡ ended → all_ended n p ≡ true → all_ended (suc n) p ≡ true
unfolding all_ended
all_ended-suc n p e h = rw (e, h) refl

all_ended-inv :
    (n : ℕ) (p : ℕ → Place) → all_ended (suc n) p ≡ true → (p n ≡ ended) × (all_ended n p ≡ true)
unfolding all_ended
all_ended-inv n p h = go (p n) refl
  where
    go : (r : Place) → p n ≡ r → (p n ≡ ended) × (all_ended n p ≡ true)
    go at_test e = absurd (ground arith)
    go at_get e = absurd (ground arith)
    go ended e = (e, ground arith)

-- Threads that had returned still have.
all_ended_mono :
    (n : ℕ) (p q : ℕ → Place)
    → ((j : ℕ) → j < n → p j ≡ ended → q j ≡ ended)
    → all_ended n p ≡ true
    → all_ended n q ≡ true
unfolding all_ended
all_ended_mono zero p q h e = refl
all_ended_mono (suc n) p q h e =
    let (returned, rest) = all_ended-inv n p e in
    all_ended-suc n q (h n (omega arith) returned)
      (all_ended_mono n p q (λ j lt. h j (omega arith)) rest)

module _ (c : Settings) (instances_count : ℕ) where
  -- The thread has returned, or can be brought to it.
  abbrev pub IsStopping : System → ℕ → Type 0
  IsStopping s j =
      (s.place j ≡ ended) ⊎ (HasShutdown (s.queue j) × All (HasReadableKey c) (s.queue j))

  -- The first `k` threads have returned, and the others still are to.
  record Ending (s : System) (k : ℕ) : Type 0 where
    after : System
    run : SystemRun c instances_count s after
    first : all_ended k after.place ≡ true
    others : (j : ℕ) → j < instances_count → IsStopping after j

  -- What is left of the threads behind the end of one.
  stopping :
      (s : System) (k : ℕ) (d : Drained c instances_count s k) (j : ℕ)
      → IsStopping s j
      → IsStopping d.after j
  stopping s k d j h = go (k == j) refl h
    where
      go : (b : Bool) → (k == j) ≡ b → IsStopping s j → IsStopping d.after j
      go true e h =
          let same : k ≡ j = ground arith in
          inl (subst (λ i. d.after.place i ≡ ended) same d.returned)
      go false e (inl r) = inl ((d.others j e).0 ∙ r)
      go false e (inr r) =
          inr (subst (λ q. HasShutdown q × All (HasReadableKey c) q) (sym (d.others j e).1) r)

  Ending-Drained :
      {s : System} {k : ℕ} (e : Ending s k) → Drained c instances_count e.after k → Ending s (suc k)
  Ending-Drained {k = k} e d = record {
    after = d.after;
    run = SystemRun-append c instances_count e.run d.run;
    first = all_ended-suc k d.after.place d.returned (
        all_ended_mono k e.after.place d.after.place (λ j lt r. (d.others j (ground arith)).0 ∙ r)
          e.first);
    others = λ j lt. stopping e.after k d j (e.others j lt);
  }

  Ending-returned :
      {s : System} {k : ℕ} (e : Ending s k) → e.after.place k ≡ ended → Ending s (suc k)
  Ending-returned {k = k} e r = record {
    after = e.after;
    run = e.run;
    first = all_ended-suc k e.after.place r e.first;
    others = e.others;
  }

  -- One thread more.
  Ending-next : {s : System} {k : ℕ} → k < instances_count → Ending s k → Ending s (suc k)
  Ending-next {k = k} lt e = elim (e.others k lt) [
    | inl r ↦ Ending-returned e r
    | inr (has, keys) ↦ elim (drain c instances_count e.after k lt has keys) [
      | inl r ↦ Ending-returned e r
      | inr d ↦ Ending-Drained e d
    ]
  ]

  all_end :
      (k : ℕ) (s : System)
      → k ≤ instances_count
      → ((j : ℕ) → j < instances_count → IsStopping s j)
      → Ending s k
  unfolding all_ended
  all_end zero s le h = record { after = s; run = here; first = refl; others = h }
  all_end (suc k) s le h = Ending-next (omega arith) (all_end k s (omega arith) h)

  -- From any state in which each thread has returned or has the shutdown message in its queue, where
  -- the identifiers of the queued packets can be read, the threads can go on so that all return and
  -- the destructor passes its joins.
  pub destruct-joins :
      (s : System)
      → ((j : ℕ) → j < instances_count → IsStopping s j)
      → (s' : System) × SystemRun c instances_count s s' × (destruct instances_count s' ≡ some s')
  unfolding destruct
  destruct-joins s h =
      let e = all_end instances_count s (omega arith) h in (e.after, e.run, rw e.first refl)
