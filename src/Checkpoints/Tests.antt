-- ===== src/Checkpoints/Tests.antt =====
-- A list of checkpoints that grows and shrinks.
use mod_audio_stream.Common.{refl, [], ◌∷◌, none, codes}
use mod_audio_stream.Checkpoints.{Checkpoints}
use mod_audio_stream.Checkpoints.Chain.{nil}
use mod_audio_stream.Checkpoints.Refine.{Gives, Represents, add, remove, run, run-Gives, cell}

abbrev empty : Checkpoints
empty = record { cells = λ a. none; first = none }

empty-Represents : Represents empty []
empty-Represents = record { chain = nil; tail = tt }

-- Two checkpoints come, one is played, and its address is used again.
run-Gives_example :
    Gives
      (run
        (add 1 320 (codes "a") ∷ add 2 640 (codes "b") ∷ remove ∷ add 1 960 (codes "c") ∷ [])
        empty)
      (cell 2 640 (codes "b") ∷ cell 1 960 (codes "c") ∷ [])
run-Gives_example =
    run-Gives (add 1 320 (codes "a") ∷ add 2 640 (codes "b") ∷ remove ∷ add 1 960 (codes "c") ∷ [])
      empty [] (cell 2 640 (codes "b") ∷ cell 1 960 (codes "c") ∷ []) empty-Represents refl
