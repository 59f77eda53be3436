-- ===== src/Execution/Retries.antt =====
-- The retries of a report: one undisturbed attempt among five is enough.
use openoms.Base.{
  ℕ, zero, suc, ◌+◌, ◌^◌, ◌<◌, ◌≤◌, ◌≡◌, refl, sym, ◌∙◌, ap, ◌⊎◌, inl, inr, true, false, String,
  some, Result, ok, err, ◌==◌, arith, Bool-cases, subst,
}
use openoms.Float.{Float64}
use openoms.Orders.State.{OrderAggregateState}
use openoms.Orders.Commands.{ExecutionReport}
use openoms.Orders.Aggregate.{EventMetadata}
use openoms.EventStore.{ConcurrencyError}
use openoms.Execution.{
  Store, ApplyError, concurrency_retry, apply_once, attempts, process_execution_report,
}
use openoms.Execution.Conflicts.{IsConsistent, fresh_read, apply_once-Outcome}

module _ {F T : Type 0} where
  -- An attempt that reads a row and writes to a store where row and stream agree.
  pub record IsSound (view : Store F T × Store F T) (id : String) : Type 0 where
    pub state : OrderAggregateState F
    pub state_at : view.0.rows id ≡ some state
    pub small : state.version < 2 ^ 62
    pub consistent : IsConsistent view.1 id

module _ {F T : Type 0} ⦃fl : Float64 F⦄ (id : String) (report : ExecutionReport F)
    (views : ℕ → Store F T × Store F T) (metadata : ℕ → EventMetadata T)
    (sound : (n : ℕ) → IsSound (views n) id) where
  abbrev one : ℕ → Result (Store F T) ApplyError
  one n = apply_once (views n).0 (views n).1 id report (metadata n)

  -- No attempt fails otherwise than by a conflict.
  ok_or_retry :
      (n : ℕ)
      → ((next : Store F T) × (one n ≡ ok next))
        ⊎ ((e : ConcurrencyError) × (one n ≡ err (concurrency_retry e)))
  ok_or_retry n =
      let v = sound n in
      elim (apply_once-Outcome (views n).0 (views n).1 id report (metadata n) v.state v.consistent
        v.state_at v.small) [
          | inl same ↦ inl (_, same)
          | inr (inl (stale, e, conflict)) ↦ inr (e, conflict)
          | inr (inr (next, done, _)) ↦ inl (next, done)
        ]

  -- An attempt that writes to what it read has no conflict.
  undisturbed : (n : ℕ) → (views n).0 ≡ (views n).1 → (next : Store F T) × (one n ≡ ok next)
  undisturbed n same =
      let v = sound n in
      elim (apply_once-Outcome (views n).0 (views n).1 id report (metadata n) v.state v.consistent
        v.state_at v.small) [
          | inl unchanged ↦ (_, unchanged)
          | inr (inl (stale, e, conflict)) ↦ absurd (
              fresh_read (views n).1 id v.consistent v.state
                (ap (λ s. s.rows id) (sym same) ∙ v.state_at) stale)
          | inr (inr (next, done, _)) ↦ (next, done)
        ]

  attempts_end :
      (left attempt good : ℕ)
      → attempt ≤ good
      → good < attempt + left
      → (views good).0 ≡ (views good).1
      → (next : Store F T) × (attempts left attempt views id report metadata ≡ ok next)
  unfolding attempts
  attempts_end zero attempt good low high same = absurd (omega (arith, low, high))
  attempts_end (suc left) attempt good low high same = elim (Bool-cases (attempt == good)) [
    | inl e ↦
        let (next, h) = undisturbed attempt (moved_to (the_same e) same) in
        (next, rw (h, attempts) refl)
    | inr e ↦ elim (ok_or_retry attempt) [
      | inl (next, h) ↦ (next, rw (h, attempts) refl)
      | inr (conflict, h) ↦
          let more = not_last e in
          let (next, rest) =
            attempts_end left (suc attempt) good (later e) (omega (arith, high)) same in
          (next, rw (h, attempts) (rw (more, attempts) rest))
    ]
  ]
    where
      the_same : attempt == good ≡ true → attempt ≡ good
      the_same e = ground (arith, e)

      moved_to :
          attempt ≡ good → (views good).0 ≡ (views good).1 → (views attempt).0 ≡ (views attempt).1
      moved_to e = subst (λ n. (views n).0 ≡ (views n).1) (sym e)

      later : attempt == good ≡ false → suc attempt ≤ good
      later e = ground (arith, e, low)

      not_last : attempt == good ≡ false → left == 0 ≡ false
      not_last e = ground (arith, e, low, high)

  -- A report is processed without an error, if at one of the five attempts nothing else commits
  -- between its read and its write. Every attempt reads a row of the order, of a version below 2^62,
  -- and writes where row and stream tell the same version.
  pub process_execution_report-ok :
      (good : ℕ)
      → 1 ≤ good
      → good ≤ 5
      → (views good).0 ≡ (views good).1
      → (next : Store F T) × (process_execution_report views id report metadata ≡ ok next)
  unfolding process_execution_report
  process_execution_report-ok good low high same =
      attempts_end 5 1 good low (omega (arith, high)) same
