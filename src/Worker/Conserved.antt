-- ===== src/Worker/Conserved.antt =====
-- Where the packets that a RADIUS thread takes (include/PacketProcessor.hpp) end up, by their
-- attributes, which are all that a notification has of them.
use mathlib.Core.List.{Perm, perm_middle, perm_append_comm}
use mathlib.Core.List.Perm
use traffic_inspector.Base.{
  ℕ, ◌+◌, ◌%◌, ◌^◌, ◌<◌, ◌≡◌, refl, sym, ap, subst, ◌∙◌, ◌==◌, if◌then◌else◌, Bool, true, false,
  Bool-cases, Option-cases, List, [], ◌∷◌, ◌++◌, map, append-nil, append_assoc, length,
  length-append, none, some, inl, inr, arith,
}
use traffic_inspector.Packets.Avp.Storage.{AvpStorage}
use traffic_inspector.Packets.Radius.{RadiusPacket}
use traffic_inspector.Worker.Notify.{NotificationData, provide_data}
use traffic_inspector.Worker.SessionMap.{Sessions, find, erase, insert}
use traffic_inspector.Worker.{Settings, Worker, is_late, sweep, on_keyed, on_sync_timeout}

-- The attributes of the packets in open sessions.
abbrev pub stored : Sessions → List AvpStorage
stored m = map (λ s. s.1.m_avps) m

-- Those of the two packets of each notification.
abbrev pub reported : List NotificationData → List AvpStorage
reported [] = []
reported (x ∷ xs) = x.resp_avp ∷ x.req_avp ∷ reported xs

abbrev pub kept : Worker → List AvpStorage
kept w = stored w.sessions ++ reported w.notifications

-- On the way from one state to another, packets with the attributes `l` were taken: these and those
-- that were kept are kept, or were given up as timeouts, one by one.
pub record Conserved (w w' : Worker) (l : List AvpStorage) : Type 0 where
  pub given_up : List AvpStorage
  pub all : Perm (kept w' ++ given_up) (kept w ++ l)
  pub counted : w'.total_timeouts ≡ (w.total_timeouts + length given_up) % 2 ^ 64

last_two_swap {ℓ} : {A : Type ℓ} (x y z : List A) → Perm ((x ++ y) ++ z) ((x ++ z) ++ y)
last_two_swap x y z =
    rw (append_assoc x y z, append_assoc x z y) (Perm.append_left x (perm_append_comm y z))

pub Conserved-refl : (w : Worker) → w.total_timeouts < 2 ^ 64 → Conserved w w []
Conserved-refl w lt = record { given_up = []; all = Perm.refl _; counted = omega arith }

pub Conserved-trans :
    {u v w : Worker} {l m : List AvpStorage}
    → Conserved u v l
    → Conserved v w m
    → Conserved u w (l ++ m)
Conserved-trans {u} {v} {w} {l} {m} a b = record {
  given_up = b.given_up ++ a.given_up;
  all =
      subst (λ q. Perm q (kept u ++ (l ++ m))) (append_assoc (kept w) b.given_up a.given_up)
        (Perm.trans (Perm.append_right a.given_up b.all) (
          Perm.trans (last_two_swap (kept v) m a.given_up) (
            subst (Perm ((kept v ++ a.given_up) ++ m)) (append_assoc (kept u) l m)
              (Perm.append_right m a.all))));
  counted = omega (arith, a.counted, b.counted, length-append b.given_up a.given_up);
}

stored-insert :
    (k : ℕ) (p : RadiusPacket) (m : Sessions)
    → find k m ≡ none
    → stored (insert k p m) ≡ stored m ++ (p.m_avps ∷ [])
unfolding find insert
stored-insert k p [] e = refl
stored-insert k p ((j, q) ∷ m) e = elim (Bool-cases (j == k)) [
  | inl t ↦ absurd (ground arith)
  | inr t ↦ rw (t, insert) (ap (λ l. q.m_avps ∷ l) (stored-insert k p m (rw (t, find) at e)))
]

stored-erase :
    (k : ℕ) (q : RadiusPacket) (m : Sessions)
    → find k m ≡ some q
    → Perm (q.m_avps ∷ stored (erase k m)) (stored m)
unfolding find erase
stored-erase k q [] e = absurd (cc)
stored-erase k q ((j, p) ∷ m) e = elim (Bool-cases (j == k)) [
  | inl t ↦ let same : p ≡ q = ground arith in rw (t, erase, same) (Perm.refl _)
  | inr t ↦
      rw (t, erase)
        (Perm.trans (Perm.swap p.m_avps q.m_avps (stored (erase k m)))
          (Perm.cons p.m_avps (stored-erase k q m (rw (t, find) at e))))
]

reported-append : (xs ys : List NotificationData) → reported (xs ++ ys) ≡ reported xs ++ reported ys
reported-append [] ys = refl
reported-append (x ∷ xs) ys = ap (λ l. x.resp_avp ∷ x.req_avp ∷ l) (reported-append xs ys)

-- The two packets of a match, of which the first was stored.
match-perm {ℓ} :
    {A : Type ℓ} (stays all done : List A) (p q : A)
    → Perm (q ∷ stays) all
    → Perm (stays ++ (done ++ (p ∷ q ∷ []))) ((all ++ done) ++ (p ∷ []))
match-perm stays all done p q h =
    let front : Perm (stays ++ (done ++ (p ∷ q ∷ []))) ((q ∷ stays) ++ (done ++ (p ∷ []))) =
      subst (λ l. Perm l ((q ∷ stays) ++ (done ++ (p ∷ []))))
        (append_assoc stays (done ++ (p ∷ [])) (q ∷ [])
          ∙ ap (λ l. stays ++ l) (append_assoc done (p ∷ []) (q ∷ [])))
        (perm_append_comm (stays ++ (done ++ (p ∷ []))) (q ∷ [])) in
    Perm.trans front (
      subst (Perm ((q ∷ stays) ++ (done ++ (p ∷ [])))) (sym (append_assoc all done (p ∷ [])))
        (Perm.append_right (done ++ (p ∷ [])) h))

pub on_keyed-Conserved :
    (c : Settings) (monotonic k : ℕ) (p : RadiusPacket) (w : Worker)
    → w.total_timeouts < 2 ^ 64
    → Conserved w (on_keyed c monotonic k p w) (p.m_avps ∷ [])
unfolding on_keyed provide_data
on_keyed-Conserved c monotonic k p w lt = elim (Option-cases (find k w.sessions)) [
  | inl e ↦ record {
    given_up = [];
    all =
        rw (e, on_keyed, stored-insert k p w.sessions e)
          (rw (append-nil ((stored w.sessions ++ (p.m_avps ∷ [])) ++ reported w.notifications))
            (last_two_swap (stored w.sessions) (p.m_avps ∷ []) (reported w.notifications)));
    counted = rw (e, on_keyed) (omega arith);
  }
  | inr (q, e) ↦ record {
    given_up = [];
    all =
        rw (e, on_keyed)
          (rw
            (
              append-nil (
                  stored (erase k w.sessions)
                  ++ reported (
                      w.notifications
                      ++ (provide_data monotonic c.source_id p.m_avps q.m_avps ∷ []))),
              reported-append w.notifications
                  (provide_data monotonic c.source_id p.m_avps q.m_avps ∷ []),
            )
            (match-perm (stored (erase k w.sessions)) (stored w.sessions) (reported w.notifications)
              p.m_avps q.m_avps (stored-erase k q w.sessions e)));
    counted = rw (e, on_keyed) (omega arith);
  }
]

-- What a sweep leaves, and as many others as it has counted, are what there was.
abbrev Swept : Sessions × ℕ → List AvpStorage → Type 0
Swept r l = (gone : List AvpStorage) × Perm (stored r.0 ++ gone) l × (length gone ≡ r.1)

sweep-stored : (c : Settings) (now : ℕ) (m : Sessions) → Swept (sweep c now m) (stored m)
unfolding sweep
sweep-stored c now [] = ([], Perm.refl _, refl)
sweep-stored c now ((k, p) ∷ m) = go (is_late c now p) (sweep c now m) (sweep-stored c now m)
  where
    go :
        (b : Bool) (r : Sessions × ℕ)
        → Swept r (stored m)
        → Swept (if b then (r.0, r.1 + 1) else ((k, p) ∷ r.0, r.1)) (p.m_avps ∷ stored m)
    go true r (gone, h, n) = (
      p.m_avps ∷ gone,
      Perm.trans (perm_middle (stored r.0) gone) (Perm.cons p.m_avps h),
      omega (arith, n),
    )
    go false r (gone, h, n) = (gone, Perm.cons p.m_avps h, n)

pub on_sync_timeout-Conserved :
    (c : Settings) (now : ℕ) (w : Worker) → Conserved w (on_sync_timeout c now w) []
unfolding on_sync_timeout
on_sync_timeout-Conserved c now w =
    let (gone, h, n) = sweep-stored c now w.sessions in
    record {
      given_up = gone;
      all = rw (append-nil (kept w)) (
          Perm.trans
            (last_two_swap (stored (sweep c now w.sessions).0) (reported w.notifications) gone)
            (Perm.append_right (reported w.notifications) h));
      counted = ap (λ j. (w.total_timeouts + j) % 2 ^ 64) (sym n);
    }
