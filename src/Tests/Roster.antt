-- ===== src/Tests/Roster.antt =====
-- A list of players that some come to, are renamed in, and leave.
use f4mp.Base.{none, List, [], ◌∷◌, codes}
use f4mp.Types.{initial_state}
use f4mp.Client.RemoteState.{new_remotes}
use f4mp.Client.Remotes.{adding, renaming, removing, applying}
use f4mp.Client.Remotes.Directory.{Agrees, note_all}
use f4mp.Client.Remotes.Directory.Steps.{take_turns-Agrees}
use f4mp.Client.Remotes.Turns.{Turn, operated, drawn, take_turns}
use f4mp.Tests.Game.{an_engine, a_motion}
use f4mp.Tests.Plugin.{some_world}

abbrev some_turns : List Turn
some_turns =
    operated some_world (applying 4 initial_state 100)
    ∷ operated some_world (adding 4 (codes "Nora"))
    ∷ operated some_world (renaming 5 (codes "Codsworth"))
    ∷ drawn a_motion an_engine 200
    ∷ operated some_world (removing 5)
    ∷ []

take_turns-Agrees_example :
    Agrees (note_all some_turns (λ k. none)) (take_turns some_turns new_remotes).players
take_turns-Agrees_example = take_turns-Agrees some_turns
