-- ===== src/Cache/RateLimit/Laws.antt =====
-- The limiter never lets more than its limit into any window, and refuses only a full one.
use mygo_microservices.Prelude.{
  ℕ, ◌-◌, ◌/◌, ◌≤◌, ◌<◌, String, ◌<>◌, ◌≡◌, refl, sym, ap, ◌∙◌, true, Bool, List, [], ◌∷◌, arith,
  ltb, ◌=ℕ=◌, if◌then◌else◌, length, trim_space, Bool-cases, inl, inr,
}
use mygo_microservices.Go.{ok, Result-cases}
use mygo_microservices.Redis.{client}
use mygo_microservices.Cache.RateLimit.{
  Entry, outside, without, Zsets, ZsetsLaws, sliding_window_script, sliding_window_allow,
  trip_rate_limit_key_prefix, build_sliding_window_member,
}
use mygo_microservices.Cache.RateLimit.Window.{
  recent, count_in, Admitted, Absent, recent-recent, Absent-recent, count_in-le,
}

-- Removing the scores up to `now - window` leaves the entries that are still in the window.
outside-recent :
    (window now : ℕ) (es : List Entry)
    → window ≤ now
    → outside 0 (now - window) es ≡ recent window now es
unfolding outside recent
outside-recent window now [] h = refl
outside-recent window now ((score, m) ∷ es) h = ground (arith, outside-recent window now es h)

recent-early : (window now : ℕ) (es : List Entry) → now < window → recent window now es ≡ es
unfolding recent
recent-early window now [] h = refl
recent-early window now ((score, m) ∷ es) h = ground (arith, recent-early window now es h)

without-Absent : (m : String) (es : List Entry) → Absent m es → without m es ≡ es
unfolding without
without-Absent m [] h = refl
without-Absent m ((score, k) ∷ es) h = ground (arith, without-Absent m es h.1)

module _ (z : Zsets) (laws : ZsetsLaws z) (key : String) (window limit : ℕ)
    (positive : 0 < window) where
  open z use {State, entries}

  -- The set holds what was accepted and was still in the window when it was last looked at.
  abbrev pub Tracks : ℕ → List Entry → State → Type 0
  Tracks seen accepted s = entries s key ≡ recent window seen accepted

  -- One run of the script, `seen` being the time of the run before: it answers by the number of
  -- accepted requests in the window that ends now.
  script_run :
      (seen now : ℕ) (m : String) (accepted : List Entry) (s : State)
      → seen ≤ now
      → Absent m accepted
      → Tracks seen accepted s
      → let (r, s') = sliding_window_script z key now window limit m s in
        let room = ltb (length (recent window now accepted)) limit in
        (r ≡ (if room then 1 else 0))
        × Tracks now (if room then (now, m) ∷ accepted else accepted) s'
  unfolding sliding_window_script recent
  script_run seen now m accepted s later fresh tracks =
      let s₁ : State = if ltb now window then s else z.zremrangebyscore key 0 (now - window) s in
      let cleaned : entries s₁ key ≡ recent window now accepted =
        elim (Bool-cases (ltb now window)) [
          | inl early ↦ rw early (
              tracks
              ∙ sym (recent-early window now (recent window seen accepted) (ground arith))
              ∙ recent-recent window seen now accepted later)
          | inr old ↦ rw old (
              laws.entries-zremrangebyscore key 0 (now - window) s
              ∙ ap (outside 0 (now - window)) tracks
              ∙ outside-recent window now (recent window seen accepted) (ground arith)
              ∙ recent-recent window seen now accepted later)
        ] in
      ground (
        arith,
        cleaned,
        laws.zcard-length key s₁,
        laws.entries-zadd key now m s₁,
        laws.entries-pexpire key window (z.zadd key now m s₁),
        without-Absent m (recent window now accepted) (Absent-recent m window now accepted fresh),
      )

  -- What is accepted of a list of requests, each a time and a member, from a state on.
  pub accept_all : List Entry → List Entry → State → List Entry
  accept_all [] accepted s = accepted
  accept_all ((now, m) ∷ rest) accepted s =
      let (r, s') = sliding_window_script z key now window limit m s in
      accept_all rest (if r =ℕ= 1 then (now, m) ∷ accepted else accepted) s'

-- Requests come in the order of their times, the first not before `t`.
abbrev pub Timely : ℕ → List Entry → Type 0
Timely t [] = Unit
Timely t ((now, m) ∷ rest) = (t ≤ now) × Timely now rest

-- No member is used twice, nor one that was used before.
abbrev pub Fresh : List Entry → List Entry → Type 0
Fresh used [] = Unit
Fresh used ((now, m) ∷ rest) = Absent m used × Fresh ((now, m) ∷ used) rest

module _ (z : Zsets) (laws : ZsetsLaws z) (key : String) (window limit : ℕ)
    (positive : 0 < window) where
  open z use {State, entries}

  -- Members that are fresh for a list are fresh for a part of it.
  Fresh-part :
      (used part : List Entry) (rest : List Entry)
      → ((m : String) → Absent m used → Absent m part)
      → Fresh used rest
      → Fresh part rest
  Fresh-part used part [] sub h = tt
  Fresh-part used part ((now, m) ∷ rest) sub h =
      (sub m h.0, Fresh-part ((now, m) ∷ used) ((now, m) ∷ part) rest (λ k a. (a.0, sub k a.1)) h.1)

  accept_all-Admitted :
      (requests : List Entry) (seen : ℕ) (accepted : List Entry) (s : State)
      → Timely seen requests
      → Fresh accepted requests
      → Tracks z laws key window limit positive seen accepted s
      → Admitted window limit accepted
      → Admitted window limit (accept_all z laws key window limit positive requests accepted s)
  unfolding accept_all
  accept_all-Admitted [] seen accepted s times fresh tracks ok_so_far = ok_so_far
  accept_all-Admitted ((now, m) ∷ rest) seen accepted s times fresh tracks ok_so_far =
      let run =
        script_run z laws key window limit positive seen now m accepted s times.0 fresh.0 tracks in
      let s' : State = (sliding_window_script z key now window limit m s).1 in
      elim (Bool-cases (ltb (length (recent window now accepted)) limit)) [
        | inl room ↦
            rw (run.0, room)
              (accept_all-Admitted rest now ((now, m) ∷ accepted) s' times.1 fresh.1
                (ground (arith, run, room)) (unfold recent in ground (arith, room), ok_so_far))
        | inr full ↦
            rw (run.0, full)
              (accept_all-Admitted rest now accepted s' times.1
                (Fresh-part ((now, m) ∷ accepted) accepted rest (λ k a. a.1) fresh.1)
                (ground (arith, run, full)) ok_so_far)
      ]

  -- From an empty set on, of any requests that come in the order of their times, under members that
  -- are all different, at most `limit` are accepted in any window of the given positive length,
  -- whenever it ends.
  pub window_bound :
      (requests : List Entry) (t : ℕ) (s : State)
      → Timely 0 requests
      → Fresh [] requests
      → entries s key ≡ []
      → count_in window t (accept_all z laws key window limit positive requests [] s) ≤ limit
  unfolding recent
  window_bound requests t s times fresh empty =
      count_in-le window limit t _ (accept_all-Admitted requests 0 [] s times fresh empty tt)

abbrev pub Past : ℕ → List Entry → Type 0
Past now [] = Unit
Past now ((score, m) ∷ es) = (score ≤ now) × Past now es

outside-Past : (now : ℕ) (es : List Entry) → Past now es → outside 0 now es ≡ []
unfolding outside
outside-Past now [] h = refl
outside-Past now ((score, m) ∷ es) h = ground (arith, outside-Past now es h.1)

module _ (z : Zsets) (laws : ZsetsLaws z) where
  open z use {State, entries}

  -- A window of less than a millisecond passes the check that it is positive and is then rounded to
  -- 0 milliseconds: where the server answers, and no entry is in the future, every request is let
  -- through, however many were accepted before.
  pub short_window_unlimited :
      (user_id : String) (limit window now seq : ℕ) (s : State) (b : Bool)
      → 0 < window
      → window < 1_000_000
      → Past now (entries s (trip_rate_limit_key_prefix <> trim_space user_id))
      → (sliding_window_allow z client user_id limit window now seq s).0 ≡ ok b
      → b ≡ true
  unfolding sliding_window_allow
  short_window_unlimited user_id limit window now seq s b positive short past h =
      let key : String = trip_rate_limit_key_prefix <> trim_space user_id in
      let member : String = (build_sliding_window_member now seq).0 in
      let script : State → ℕ × State =
        sliding_window_script z key now (window / 1_000_000) limit member in
      elim (Result-cases (z.eval script s).0) [
        | inr (e, p) ↦ absurd (ground (arith, p))
        | inl (n, p) ↦ ground (
          arith,
          laws.eval_ok script s n p,
          laws.zcard-length key (z.zremrangebyscore key 0 (now - window / 1_000_000) s),
          laws.entries-zremrangebyscore key 0 (now - window / 1_000_000) s,
          outside-Past now (entries s key) past,
        )
      ]
