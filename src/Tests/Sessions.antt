-- ===== src/Tests/Sessions.antt =====
-- The theorems on sessions at the worlds of Tests/Worlds.
use cloud_robotics.Prelude.{
  lit, ◌≡◌, refl, if◌then◌else◌, none, some, arith, ◌==◌, List, [], ◌∷◌, All,
}
use cloud_robotics.Exec.{ok, err, session_conflict}
use cloud_robotics.Services.Memory.{memory}
use cloud_robotics.Backend.Sessions.{
  acquire, acquire_from, read, renew, get_holder, not_active_holder,
}
use cloud_robotics.Backend.Sessions.Holding.{IsOpen, new_lock, info_of}
use cloud_robotics.Backend.Sessions.Race.{IsReady, both_acquire}
use cloud_robotics.Backend.World.{World}
use cloud_robotics.Backend.Sessions.{audit_row}
use cloud_robotics.Backend.Sessions.Ending.{wait}
use cloud_robotics.Backend.Sessions.Expiry.{expired-IsOpen}
use cloud_robotics.Backend.Sessions.Spec.{Op, Answer, answer, after, replay, run}
use cloud_robotics.Backend.Sessions.Shown.{Shows, Refines, OfKnown}
use cloud_robotics.Backend.Sessions.Refinement.{run-Refines}
use cloud_robotics.Backend.Sessions.{key}
use cloud_robotics.Tests.Worlds.{idle, ada_lock, held, idle-Free, idle_registered, ada-ne-bob}

idle-IsReady : IsReady memory idle (lit "r1")
idle-IsReady = record { known = idle_registered; fresh = λ n old. refl }

both_acquire_example :
    let (res_a, w₁) = acquire_from memory 60 (lit "r1") (lit "ada") none idle in
    let (res_b, w₂) = acquire_from memory 60 (lit "r1") (lit "bob") none w₁ in
    (read memory (lit "r1") idle ≡ (ok none, idle))
    × (res_a ≡ ok (info_of memory idle (lit "r1") (new_lock memory idle (lit "ada")) 60))
    × (res_b ≡ ok (info_of memory w₁ (lit "r1") (new_lock memory w₁ (lit "bob")) 60))
    × (get_holder memory (lit "r1") w₂ ≡ (ok (some (lit "bob")), w₂))
    × (renew memory 60 (lit "r1") (lit "ada") w₂
        ≡ (err (session_conflict (not_active_holder (lit "ada") (lit "r1"))), w₂))
    × IsOpen memory w₂ (lit "r1") (new_lock memory idle (lit "ada"))
both_acquire_example =
    both_acquire memory 60 idle (lit "r1") (lit "ada") (lit "bob") (omega arith) idle-IsReady
      idle-Free ada-ne-bob

idle-Refines : Refines memory idle (λ _. none)
unfolding key ◌==◌
idle-Refines = record { shows = λ r. Shows.idle refl; fresh = λ n old. refl }

-- Ada takes the robot, bob may not, she falls silent for 61 seconds, and bob may.
abbrev contest : List Op
contest =
    Op.acquire (lit "r1") (lit "ada")
    ∷ Op.acquire (lit "r1") (lit "bob")
    ∷ Op.elapse 61
    ∷ Op.acquire (lit "r1") (lit "bob")
    ∷ Op.get_holder (lit "r1")
    ∷ []

contest-OfKnown : All (OfKnown memory idle) contest
unfolding OfKnown
contest-OfKnown = (idle_registered, (idle_registered, (tt, (idle_registered, (tt, tt)))))

contest_answers :
    (replay 60 contest (λ _. none)).0
    ≡ Answer.done
      ∷ Answer.refused
      ∷ Answer.done
      ∷ Answer.done
      ∷ Answer.holder (some (lit "bob"))
      ∷ []
unfolding replay after answer ◌==◌
contest_answers = refl

run-Refines_example :
    let (answers, w') = run memory 60 contest idle in
    (answers ≡ (replay 60 contest (λ _. none)).0)
    × Refines memory w' (replay 60 contest (λ _. none)).1
run-Refines_example =
    run-Refines memory 60 (omega arith) contest idle (λ _. none) contest-OfKnown idle-Refines

-- Ada's session with its audit row.
abbrev audited : World memory
audited = record held {
  pg = record idle.pg {
    sessions =
        λ i. if lit "s" == i then some (audit_row memory (lit "r1") (lit "ada") 4000) else none;
  };
}

audited-IsOpen : IsOpen memory audited (lit "r1") ada_lock
unfolding ◌==◌
audited-IsOpen = record {
  row = audit_row memory (lit "r1") (lit "ada") 4000;
  found = refl;
  of_robot = refl;
  of_operator = refl;
  still_open = refl;
}

-- 100 seconds are left, and 120 pass.
expired-IsOpen_example :
    let (res, w') = acquire memory 60 (lit "r1") (lit "bob") (wait memory 120 audited) in
    (res
      ≡ ok (
          info_of memory
            (wait memory 120 audited)
            (lit "r1")
            (new_lock memory audited (lit "bob"))
            60))
    × (get_holder memory (lit "r1") w' ≡ (ok (some (lit "bob")), w'))
    × IsOpen memory w' (lit "r1") ada_lock
expired-IsOpen_example =
    expired-IsOpen memory 60 120 audited (lit "r1") (lit "bob") ada_lock 100 (omega arith)
      (omega arith) (unfold key ◌==◌ in refl) audited-IsOpen idle_registered (unfold ◌==◌ in refl)
