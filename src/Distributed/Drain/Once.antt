-- ===== src/Distributed/Drain/Once.antt =====
-- Acknowledgements and finalizations of one stop, interleaved in any way. Between `note_ack` and
-- `finish_drain` the lock is free, so further acknowledgements arrive while a finalization runs.
use nexus_n3_core.Prelude.{
  ℕ, ◌+◌, ◌-◌, ◌≤◌, ◌<◌, String, ◌≡◌, refl, ap, ◌∙◌, inl, inr, Bool, true, false, ◌&&◌, Option,
  none, some, List, arith, if◌then◌else◌, str_eq, lookup, insert, truthy, Bool-cases, Option-cases,
  eq_iff, lookup-insert,
}
use nexus_n3_core.Distributed.Drain.{
  DrainRecord, DrainState, Payload, DrainResult, Outcome, wait, publish_partial, finalize, ack_of,
  should_finalize, drain_result, decide_drain, note_ack, finish_drain, without, is_empty,
  drained_subjects,
}

module _ (stop : String) where
  -- The coordinator, the finalizations of `stop` that are running, and its completions: the
  -- successful finalizations and the published partial results.
  pub record Config : Type 0 where
    pub state : DrainState
    pub running : ℕ
    pub completed : ℕ

  abbrev pub starts : Outcome → ℕ
  starts wait = 0
  starts (publish_partial r q) = 0
  starts (finalize q) = if str_eq q.stop_session_id stop then 1 else 0

  abbrev pub publishes : Outcome → ℕ
  publishes wait = 0
  publishes (publish_partial r q) = if str_eq q.stop_session_id stop then 1 else 0
  publishes (finalize q) = 0

  abbrev pub succeeds : Option String → ℕ
  succeeds none = 1
  succeeds (some error) = 0

  pub data Step (c : Config) : Config → Type 0 where
    acknowledged :
        (node : String) (payload : Option Payload)
        → Step c (record c {
          state = (note_ack node payload c.state).0;
          running = c.running + starts (note_ack node payload c.state).1;
          completed = c.completed + publishes (note_ack node payload c.state).1;
        })
    -- A running finalization of this stop returns, or raises an error.
    finished :
        (result : DrainResult) (raised : Option String)
        → result.stop_session_id ≡ stop
        → 0 < c.running
        → Step c (record c {
          state = (finish_drain result raised c.state).0;
          running = c.running - 1;
          completed = c.completed + succeeds raised;
        })
    finished_other :
        (result : DrainResult) (raised : Option String)
        → str_eq result.stop_session_id stop ≡ false
        → Step c (record c { state = (finish_drain result raised c.state).0 })

  pub data Reach (c : Config) : Config → Type 0 where
    here : Reach c c
    next : {d e : Config} → Reach c d → Step d e → Reach c e

  abbrev count : Bool → ℕ
  count true = 1
  count false = 0

  -- The flags of the stop's record tell what is running and what is done.
  pub record Inv (c : Config) : Type 0 where
    pub stop_record : DrainRecord
    pub known : lookup stop c.state.tracking ≡ some stop_record
    pub runs : c.running ≡ count stop_record.finalizing
    pub ended : c.completed ≡ count stop_record.finalized
    pub apart : (stop_record.finalizing && stop_record.finalized) ≡ false

  pub record IsFresh (c : Config) : Type 0 where
    pub stop_record : DrainRecord
    pub known : lookup stop c.state.tracking ≡ some stop_record
    pub idle : stop_record.finalizing ≡ false
    pub unfinished : stop_record.finalized ≡ false
    pub none_running : c.running ≡ 0
    pub none_completed : c.completed ≡ 0

  IsFresh-Inv : {c : Config} → IsFresh c → Inv c
  IsFresh-Inv f = record {
    stop_record = f.stop_record;
    known = f.known;
    runs = ground (arith, f.none_running, f.idle);
    ended = ground (arith, f.none_completed, f.unfinished);
    apart = ground (arith, f.idle);
  }

  -- Storing a record with the flags that the counts then have.
  store-Inv :
      (id : String) (x : DrainRecord) (active : List String) (c : Config) (running completed : ℕ)
      → Inv c
      → (str_eq id stop ≡ true
          → (running ≡ count x.finalizing)
            × (completed ≡ count x.finalized)
            × ((x.finalizing && x.finalized) ≡ false))
      → (str_eq id stop ≡ false → (running ≡ c.running) × (completed ≡ c.completed))
      → Inv (record {
        state = record { tracking = insert id x c.state.tracking; active = active };
        running = running;
        completed = completed;
      })
  store-Inv id x active c running completed v mine other = elim (Bool-cases (str_eq id stop)) [
    | inl same ↦ record {
      stop_record = x;
      known = ground (arith, lookup-insert id stop x c.state.tracking);
      runs = (mine same).0;
      ended = (mine same).1;
      apart = (mine same).2;
    }
    | inr different ↦ record {
      stop_record = v.stop_record;
      known = ground (arith, lookup-insert id stop x c.state.tracking, v.known);
      runs = (other different).0 ∙ v.runs;
      ended = (other different).1 ∙ v.ended;
      apart = v.apart;
    }
  ]

  -- The record under the identifier of the stop is the stop's.
  same_record :
      (id : String) (old mine : DrainRecord) (t : List (String × DrainRecord))
      → lookup id t ≡ some old
      → lookup stop t ≡ some mine
      → str_eq id stop ≡ true
      → old ≡ mine
  same_record id old mine t f k e = ground (arith, eq_iff id stop)

  abbrev after : Config → DrainState × Outcome → Config
  after c (s, out) = record {
    state = s;
    running = c.running + starts out;
    completed = c.completed + publishes out;
  }

  module _ (id : String) (r old : DrainRecord) (c : Config) (v : Inv c)
      (found : lookup id c.state.tracking ≡ some old) (same : r.finalizing ≡ old.finalizing)
      (same' : r.finalized ≡ old.finalized) where
    decide-Inv_wait : should_finalize r ≡ false → Inv (after c (decide_drain id r c.state))
    unfolding decide_drain
    decide-Inv_wait more =
        rw (more, decide_drain)
          (store-Inv id r c.state.active c (c.running + 0) (c.completed + 0) v
            (λ e. ground (
              arith,
              same_record id old v.stop_record c.state.tracking found v.known e,
              v.runs,
              v.ended,
              v.apart,
            ))
            (λ e. omega arith))

    unflagged :
        should_finalize r ≡ true
        → str_eq id stop ≡ true
        → (r.finalizing ≡ false) × (r.finalized ≡ false) × (c.running ≡ 0) × (c.completed ≡ 0)
    unfolding should_finalize
    unflagged ready e =
        ground (
          arith,
          same_record id old v.stop_record c.state.tracking found v.known e,
          v.runs,
          v.ended,
        )

    decide-Inv_ready : should_finalize r ≡ true → Inv (after c (decide_drain id r c.state))
    unfolding decide_drain drain_result
    decide-Inv_ready ready =
        let active = without c.state.active (drained_subjects r.acks) in
        elim (Bool-cases (is_empty active)) [
          | inl idle ↦
              rw (ready, idle, decide_drain)
                (store-Inv id (record r { finalizing = true }) active c
                  (c.running + (if str_eq id stop then 1 else 0)) (c.completed + 0) v
                  (λ e. ground (arith, unflagged ready e)) (λ e. ground arith))
          | inr busy ↦
              rw (ready, busy, decide_drain)
                (store-Inv id (record r { finalizing = false; finalized = true }) active c
                  (c.running + 0) (c.completed + (if str_eq id stop then 1 else 0)) v
                  (λ e. ground (arith, unflagged ready e)) (λ e. ground arith))
        ]

    decide-Inv : Inv (after c (decide_drain id r c.state))
    decide-Inv = elim (Bool-cases (should_finalize r)) [
      | inl ready ↦ decide-Inv_ready ready
      | inr more ↦ decide-Inv_wait more
    ]

  wait-Inv : (c : Config) (x : DrainState × Outcome) → Inv c → x ≡ (c.state, wait) → Inv (after c x)
  wait-Inv c x v e = rw e (record {
    stop_record = v.stop_record;
    known = v.known;
    runs = omega (arith, v.runs);
    ended = omega (arith, v.ended);
    apart = v.apart;
  })

  note_ack-Inv :
      (node : String) (payload : Option Payload) (c : Config)
      → Inv c
      → Inv (after c (note_ack node payload c.state))
  unfolding note_ack
  note_ack-Inv node none c v = wait-Inv c _ v refl
  note_ack-Inv node (some p) c v = elim (Option-cases (truthy p.stop_session_id)) [
    | inl e ↦ wait-Inv c _ v (rw (e, note_ack) refl)
    | inr (id, e) ↦ elim (Option-cases (lookup id c.state.tracking)) [
      | inl f ↦ wait-Inv c _ v (ground arith)
      | inr (r, f) ↦
          rw (e, f, note_ack)
            (decide-Inv id (record r { acks = insert node (ack_of p) r.acks }) r c v f refl refl)
    ]
  ]

  finish-Inv :
      (result : DrainResult) (raised : Option String) (c : Config)
      → Inv c
      → result.stop_session_id ≡ stop
      → 0 < c.running
      → Inv (record c {
        state = (finish_drain result raised c.state).0;
        running = c.running - 1;
        completed = c.completed + succeeds raised;
      })
  unfolding finish_drain
  finish-Inv result none c v e pos =
      rw (ap (λ i. lookup i c.state.tracking) e ∙ v.known, finish_drain)
        (store-Inv result.stop_session_id
          (record v.stop_record { finalizing = false; finalized = true }) c.state.active c
          (c.running - 1) (c.completed + 1) v (λ _. ground (arith, v.runs, v.ended, v.apart))
          (λ d. ground (arith, eq_iff result.stop_session_id stop)))
  finish-Inv result (some error) c v e pos =
      rw (ap (λ i. lookup i c.state.tracking) e ∙ v.known, finish_drain)
        (store-Inv result.stop_session_id (record v.stop_record { finalizing = false })
          c.state.active c (c.running - 1) (c.completed + 0) v
          (λ _. ground (arith, v.runs, v.ended, v.apart))
          (λ d. ground (arith, eq_iff result.stop_session_id stop)))

  other_raised :
      (result : DrainResult) (raised : Option String) (r : DrainRecord) (c : Config)
      → Inv c
      → str_eq result.stop_session_id stop ≡ false
      → lookup result.stop_session_id c.state.tracking ≡ some r
      → Inv (record c { state = (finish_drain result raised c.state).0 })
  unfolding finish_drain
  other_raised result none r c v e f =
      rw (f, finish_drain)
        (store-Inv result.stop_session_id (record r { finalizing = false; finalized = true })
          c.state.active c c.running c.completed v (λ s. cc) (λ _. (refl, refl)))
  other_raised result (some error) r c v e f =
      rw (f, finish_drain)
        (store-Inv result.stop_session_id (record r { finalizing = false }) c.state.active c
          c.running c.completed v (λ s. cc) (λ _. (refl, refl)))

  finish_other-Inv :
      (result : DrainResult) (raised : Option String) (c : Config)
      → Inv c
      → str_eq result.stop_session_id stop ≡ false
      → Inv (record c { state = (finish_drain result raised c.state).0 })
  unfolding finish_drain
  finish_other-Inv result raised c v e =
      elim (Option-cases (lookup result.stop_session_id c.state.tracking)) [
        | inl f ↦ rw (f, finish_drain) v
        | inr (r, f) ↦ other_raised result raised r c v e f
      ]

  Step-Inv : {c d : Config} → Step c d → Inv c → Inv d
  Step-Inv {c} (acknowledged node payload) v = note_ack-Inv node payload c v
  Step-Inv {c} (finished result raised e pos) v = finish-Inv result raised c v e pos
  Step-Inv {c} (finished_other result raised e) v = finish_other-Inv result raised c v e

  Reach-Inv : {c d : Config} → Inv c → Reach c d → Inv d
  Reach-Inv v here = v
  Reach-Inv v (next r st) = Step-Inv st (Reach-Inv v r)

  -- However acknowledgements, repeated ones included, and finalizations interleave after a stop
  -- was created: at most one finalization of its session runs at a time, the stop completes at
  -- most once, and none runs once it has completed.
  pub Reach-once : {c d : Config} → IsFresh c → Reach c d → d.running + d.completed ≤ 1
  Reach-once f r = let v = Reach-Inv (IsFresh-Inv f) r in ground (arith, v.runs, v.ended, v.apart)
