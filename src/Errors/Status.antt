-- ===== src/Errors/Status.antt =====
-- The status of an error over a run of the archiver, and its strings.
use archive_tar_builder.Prelude.{
  ◌≡◌, ◌≢◌, refl, Bool, true, false, some, List, [], ◌∷◌, arith, Bytes, if◌then◌else◌, ◌||◌,
  Bool-cases, inl, inr,
}
use archive_tar_builder.Errors.{
  ℤ, pos, negsuc, ErrorType, is_fatal, StringRef, null, live, dangling, freed, Error, set, clear,
  reset, status,
}

-- What happens to an error: it is set, with the answers of its two allocations, it is cleared, or it
-- is reset.
pub data Event : Type 0 where
  was_set : Bool → Bool → ErrorType → ℤ → Bytes → Bytes → Event
  was_cleared : Event
  was_reset : Event

unfoldable pub handle : Error → Event → Error
handle err (was_set m p type errno message path) = (set m p err type errno message path).0
handle err was_cleared = clear err
handle err was_reset = reset err

unfoldable pub run : Error → List Event → Error
unfolding handle
run err [] = err
run err (e ∷ events) = run (handle err e) events

-- Whether there was a fatal error since the last reset; `before` says whether there was one at first.
unfoldable pub fatal_since : Bool → List Event → Bool
unfolding is_fatal
fatal_since before [] = before
fatal_since before (was_set m p type errno message path ∷ events) =
    fatal_since (is_fatal type || before) events
fatal_since before (was_cleared ∷ events) = fatal_since before events
fatal_since before (was_reset ∷ events) = fatal_since false events

abbrev pub failed_if : Bool → ℤ
failed_if b = if b then negsuc 0 else pos 0

set-status :
    (m p : Bool) (err : Error) (type : ErrorType) (n : ℤ) (message path : Bytes) (before : Bool)
    → err.status ≡ failed_if before
    → (set m p err type n message path).0.status ≡ failed_if (is_fatal type || before)
unfolding set
set-status m p err type n message path before h = elim (Bool-cases (is_fatal type)) [
  | inl e ↦ ground (arith, h)
  | inr e ↦ ground (arith, h)
]

-- Whatever happens in between, memory that is refused included, the status is -1 exactly if there was a
-- fatal error since the last reset: clearing the error and warnings leave it.
pub status-run :
    (err : Error) (before : Bool) (events : List Event)
    → err.status ≡ failed_if before
    → status (some (run err events)) ≡ failed_if (fatal_since before events)
unfolding run fatal_since status handle clear reset
status-run err before [] h = h
status-run err before (was_set m p type n message path ∷ events) h =
    status-run (set m p err type n message path).0 (is_fatal type || before) events
      (set-status m p err type n message path before h)
status-run err before (was_cleared ∷ events) h = status-run (clear err) before events h
status-run err before (was_reset ∷ events) h = status-run (reset err) false events refl

-- No string of the error is dangling.
abbrev pub IsSound : Error → Type 0
IsSound err = (err.message ≢ dangling) × (err.path ≢ dangling)

-- The messages could be copied.
abbrev pub AllCopied : List Event → Type 0
AllCopied [] = Unit {0}
AllCopied (was_set m p type errno message path ∷ events) = (m ≡ true) × AllCopied events
AllCopied (was_cleared ∷ events) = AllCopied events
AllCopied (was_reset ∷ events) = AllCopied events

set-IsSound :
    (p : Bool) (err : Error) (type : ErrorType) (n : ℤ) (message path : Bytes)
    → IsSound (set true p err type n message path).0
unfolding set
set-IsSound true err type n message path = (ground arith, ground arith)
set-IsSound false err type n message path = (ground arith, ground arith)

-- If every message could be copied, then no run leaves a dangling string, also where paths could not
-- be copied.
pub run-IsSound :
    (err : Error) (events : List Event) → AllCopied events → IsSound err → IsSound (run err events)
unfolding run handle clear reset
run-IsSound err [] copied h = h
run-IsSound err (was_set true p type errno message path ∷ events) copied h =
    run-IsSound (set true p err type errno message path).0 events copied.1
      (set-IsSound p err type errno message path)
run-IsSound err (was_set false p type errno message path ∷ events) copied h = absurd (ground arith)
run-IsSound err (was_cleared ∷ events) copied h =
    run-IsSound (clear err) events copied (ground arith, ground arith)
run-IsSound err (was_reset ∷ events) copied h =
    run-IsSound (reset err) events copied (ground arith, ground arith)

-- A message that cannot be copied leaves the path that the error had dangling, and the run after it
-- starts with that.
pub set-dangling :
    (p : Bool) (err : Error) (type : ErrorType) (n : ℤ) (message path : Bytes)
    → err.path ≢ null
    → (set false p err type n message path).0.path ≡ dangling
unfolding set freed
set-dangling p err type n message path h = by_ref err.path h
  where
    by_ref : (r : StringRef) → r ≢ null → freed r ≡ dangling
    by_ref null k = absurd (k refl)
    by_ref (live s) k = refl
    by_ref dangling k = refl
