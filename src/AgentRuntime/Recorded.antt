-- ===== src/AgentRuntime/Recorded.antt =====
-- packages/agent-runtime/manager.go: an event is passed on only after it was recorded.
use dev_plane.Prelude.{Bool, Option, List, [], ◌∷◌}
use dev_plane.AgentRuntime.Protocol.{Thread, Turn, Event}
use dev_plane.AgentRuntime.World.{World}
use dev_plane.AgentRuntime.Manager.{Manager}
use dev_plane.AgentRuntime.Kept.{Logged}

-- an event with the thread that it is recorded for
abbrev pub of_thread : Thread → Event × Bool → Event
of_thread thread (e, gone) = record e { thread_id = thread.id }

module _ {S : Type 0} (m : Manager S) (thread : Thread) where
  -- The events were kept by the store and taken by the sink, one after the other.
  pub data Recorded : Option Turn → World S → List Event → World S → Type 0 where
    none_yet : {turn : Option Turn} {w : World S} → Recorded turn w [] w
    recorded :
        {turn turn' : Option Turn} {w w1 w2 : World S} {e : Event} {es : List Event}
        → Logged m thread turn e w turn' w1
        → Recorded turn' w1 es w2
        → Recorded turn w (e ∷ es) w2
