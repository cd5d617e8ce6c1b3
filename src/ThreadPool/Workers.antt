-- ===== src/ThreadPool/Workers.antt =====
-- The list of workers: how its length and the number of busy workers change.
use gar_virt.Prelude.{length, ℕ, ◌+◌, ◌≤◌, ◌≡◌, refl, some, List, [], ◌∷◌, ◌++◌, map, arith}
use gar_virt.ThreadPool.{
  looping, running, exited, Activity, Worker, find, update, erase, set_activity, move_out,
}

abbrev pub busy : Activity → ℕ
busy looping = 0
busy running = 1
busy exited = 0

-- The workers whose thread is in a task.
abbrev pub running_count : List Worker → ℕ
running_count [] = 0
running_count (w ∷ ws) = busy w.activity + running_count ws

pub running_count-le : (ws : List Worker) → running_count ws ≤ length ws
running_count-le [] = omega arith
running_count-le (w ∷ ws) = ground (arith, running_count-le ws)

pub running_count-append :
    (ws us : List Worker) → running_count (ws ++ us) ≡ running_count ws + running_count us
running_count-append [] us = omega arith
running_count-append (w ∷ ws) us = omega (arith, running_count-append ws us)

pub running_count-map : (ws : List Worker) → running_count (map move_out ws) ≡ running_count ws
running_count-map [] = refl
running_count-map (w ∷ ws) = omega (arith, running_count-map ws)

pub length-map_workers : (f : Worker → Worker) (ws : List Worker) → length (map f ws) ≡ length ws
length-map_workers f [] = refl
length-map_workers f (w ∷ ws) = omega (arith, length-map_workers f ws)

pub length-update :
    (i : ℕ) (f : Worker → Worker) (ws : List Worker) → length (update i f ws) ≡ length ws
unfolding update
length-update i f [] = refl
length-update i f (w ∷ ws) = ground (arith, length-update i f ws)

-- A worker that is there goes from one activity to another, or away.
pub running_count-update :
    (i : ℕ) (a : Activity) (ws : List Worker) (w : Worker)
    → find i ws ≡ some w
    → running_count (update i (set_activity a) ws) + busy w.activity ≡ running_count ws + busy a
unfolding find update
running_count-update i a [] w e = cc
running_count-update i a (u ∷ ws) w e = ground (arith, running_count-update i a ws w)

pub running_count-erase :
    (i : ℕ) (ws : List Worker) (w : Worker)
    → find i ws ≡ some w
    → (running_count (erase i ws) + busy w.activity ≡ running_count ws)
      × (length (erase i ws) + 1 ≡ length ws)
unfolding find erase
running_count-erase i [] w e = cc
running_count-erase i (u ∷ ws) w e = ground (arith, running_count-erase i ws w)
