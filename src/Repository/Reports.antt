-- ===== src/Repository/Reports.antt =====
-- How often a database that cannot be written is reported.
use nosana_node.Base.{
  String, eq_refl, ℕ, ◌+◌, ◌-◌, ◌≤◌, ◌≡◌, refl, ◌≢◌, inl, inr, true, Option, none, some, List, [],
  ◌∷◌, arith, All, Bool-cases, ltb,
}
use nosana_node.Repository.{Persistence, persist, persist_report_interval_ms, is_text}

abbrev pub no_failure : Persistence
no_failure = record { last_error = none; last_report_at = 0; reports = [] }

-- The outcomes of a run of writes, each with the time of the clock.
unfoldable pub persist_all : List (ℕ × Option String) → Persistence → Persistence
persist_all [] p = p
persist_all ((now, outcome) ∷ writes) p = persist_all writes (persist outcome now p)

-- Every outcome is a failure with this message.
abbrev pub AllFail : String → List (ℕ × Option String) → Type 0
AllFail message writes = All (λ w. w.1 ≡ some message) writes

-- Two reports after one another, the later first, are the interval apart.
abbrev pub IsSpread : List (ℕ × String) → Type 0
IsSpread [] = Unit
IsSpread (later ∷ []) = Unit
IsSpread (later ∷ earlier ∷ rest) =
    (earlier.0 + persist_report_interval_ms ≤ later.0) × IsSpread (earlier ∷ rest)

-- The reports are spread, the last one standing at the given time.
abbrev SpreadTo : ℕ → List (ℕ × String) → Type 0
SpreadTo t [] = ⊥
SpreadTo t (r ∷ rest) = (r.0 ≡ t) × IsSpread (r ∷ rest)

-- What holds while the same failure lasts.
record Reported (message : String) (p : Persistence) : Type 0 where
  last : p.last_error ≡ some message
  spread : SpreadTo p.last_report_at p.reports

SpreadTo-cons :
    (t now : ℕ) (message : String) (reports : List (ℕ × String))
    → SpreadTo t reports
    → t + persist_report_interval_ms ≤ now
    → SpreadTo now ((now, message) ∷ reports)
SpreadTo-cons t now message [] h k = absurd h
SpreadTo-cons t now message (r ∷ rest) h k = (refl, (omega arith, h.1))

Reported-persist :
    (message : String) (now : ℕ) (p : Persistence)
    → Reported message p
    → Reported message (persist (some message) now p)
unfolding persist
Reported-persist message now p h =
    let same : is_text message p.last_error ≡ true = ground (arith, h.last, eq_refl message) in
    elim (Bool-cases (ltb (now - p.last_report_at) persist_report_interval_ms)) [
      | inl soon ↦ rw (same, soon) h
      | inr late ↦
          rw (same, late)
            (record {
              last = refl;
              spread = SpreadTo-cons p.last_report_at now message p.reports h.spread (ground arith);
            })
    ]

Reported-persist_all :
    (message : String) (writes : List (ℕ × Option String)) (p : Persistence)
    → AllFail message writes
    → Reported message p
    → Reported message (persist_all writes p)
unfolding persist_all
Reported-persist_all message [] p a h = h
Reported-persist_all message ((now, outcome) ∷ writes) p a h =
    Reported-persist_all message writes (persist outcome now p) a.1
      (rw a.0 (Reported-persist message now p h))

SpreadTo-IsSpread : (t : ℕ) (reports : List (ℕ × String)) → SpreadTo t reports → IsSpread reports
SpreadTo-IsSpread t [] h = tt
SpreadTo-IsSpread t (r ∷ rest) h = h.1

-- While every write fails in the same way, the failure is reported at the first write and then
-- at most once in five minutes.
pub persist_all-IsSpread :
    (message : String) (now : ℕ) (writes : List (ℕ × Option String))
    → AllFail message writes
    → let p = persist_all ((now, some message) ∷ writes) no_failure in
      IsSpread p.reports × (p.reports ≢ [])
unfolding persist_all persist
persist_all-IsSpread message now writes a =
    let h =
      Reported-persist_all message writes (persist (some message) now no_failure) a
        (record { last = refl; spread = (refl, tt) }) in
    (SpreadTo-IsSpread _ _ h.spread, λ e. nonempty _ _ h.spread e)
  where
    nonempty : (t : ℕ) (reports : List (ℕ × String)) → SpreadTo t reports → reports ≢ []
    nonempty t [] h e = h
    nonempty t (r ∷ rest) h e = cc
