-- ===== src/Tests/Process.antt =====
-- Stream ids at a concrete `rand`.
use erizo_controller.Base.{ℕ, ◌≤◌, ◌<◌, List, ◌∷◌, ◌≡◌, length, All}
use erizo_controller.Process.Ends.{Ends}
use erizo_controller.Process.Clock.{get_stream_id}
use erizo_controller.Process.StreamId.{digits_text, get_stream_id_lem}
use erizo_controller.Demo.World.{demo, start}

get_stream_id_example :
    Ends
      (λ s _.
        (d : ℕ) × (ds : List ℕ) × (1 ≤ d)
        × (d ≤ 9)
        × (length ds ≡ 17)
        × All (λ k. k < 10) ds
        × (s ≡ digits_text (d ∷ ds)))
      (get_stream_id demo start)
get_stream_id_example = get_stream_id_lem demo start
