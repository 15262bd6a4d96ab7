-- ===== src/Cache/Memory/Runs.antt =====
-- The store against the contract of cache/cache.go, over sequences of calls.
use chandlery.Base.{ℕ, ◌≤◌, String, ◌≡◌, refl, ap₂, none, List, [], ◌∷◌}
use chandlery.Base.Assoc.{lookup-empty}
use chandlery.Cache.Memory
use chandlery.Cache.Memory.{
  Bytes, Entry, Store, text_of, copy_bytes, find_entry, write, number_of, Result, ok, err,
}
use chandlery.Cache.Memory.Visible.{visible}
use chandlery.Cache.Memory.Contract.{Call, Reply, Ideal, Agrees, call, ideal}
use chandlery.Cache.Memory.Refinement.{IsCall, call-Refines}

-- A call with its readings of the clock.
pub record Timed : Type 0 where
  pub now : ℕ
  pub later : ℕ
  pub what : Call

unfoldable pub run : List Timed → Store → List Reply
run [] s = []
run (c ∷ cs) s = let r = call c.now c.later c.what s in r.1 ∷ run cs r.0

unfoldable pub ideal_run : List Timed → Ideal → List Reply
ideal_run [] i = []
ideal_run (c ∷ cs) i = let r = ideal c.now c.later c.what i in r.1 ∷ ideal_run cs r.0

-- The clock does not go back, and the counters are asked for int64s.
abbrev pub InOrder : ℕ → List Timed → Type 0
InOrder t [] = Unit
InOrder t (c ∷ cs) = (t ≤ c.now) × (c.now ≤ c.later) × IsCall c.what × InOrder c.later cs

run-eq-ideal_run :
    (cs : List Timed) {t : ℕ} {s : Store} {i : Ideal}
    → Agrees t s i
    → InOrder t cs
    → run cs s ≡ ideal_run cs i
unfolding run ideal_run
run-eq-ideal_run [] a h = refl
run-eq-ideal_run (c ∷ cs) a (h, g, b, rest) =
    let r = call-Refines c.now c.later c.what a h g b in
    ap₂ (λ x xs. x ∷ xs) r.reply (run-eq-ideal_run cs r.agrees rest)

abbrev pub nothing : String → Ideal
nothing prefix = record { prefix = prefix; table = λ j. none }

-- A new store answers every sequence of calls whose clock readings do not go back, with int64s for
-- the counters, exactly as an ideal store that never evicts and computes with exact integers.
pub refines_contract :
    (prefix : String) (cs : List Timed)
    → InOrder 0 cs
    → run cs (Memory.init prefix) ≡ ideal_run cs (nothing prefix)
refines_contract prefix cs h =
    run-eq-ideal_run cs
      (record { prefix = refl; shows = λ u j g. unfold visible in rw lookup-empty refl }) h
