-- ===== src/Backend/Sessions/Spec.antt =====
-- What the sessions of cloud-container/backend/app/sessions/manager.py promise, without a key, an
-- identifier or a table: who holds each robot and for how many seconds yet. An operation is a call
-- of a method, or seconds that pass.
use cloud_robotics.Prelude.{
  ℕ, ◌+◌, ◌-◌, ◌*◌, Text, ◌==◌, Bool, true, false, Option, none, some, List, [], ◌∷◌, leb,
  if◌then◌else◌,
}
use cloud_robotics.Exec.{Result, ok, err, Error}
use cloud_robotics.Services.{Services}
use cloud_robotics.Backend.World.{World}
use cloud_robotics.Backend.Sessions

pub data Op : Type 0 where
  acquire renew release require_holder : Text → Text → Op
  get_holder : Text → Op
  elapse : ℕ → Op

-- How a call ends: it returns, with what it returns of `get_holder`, or raises a conflict or another
-- exception.
pub data Answer : Type 0 where
  done refused failed : Answer
  holder : Option Text → Answer

abbrev pub Spec : Type 0
Spec = Text → Option (Text × ℕ)

-- Who may take a robot, and who holds it.
abbrev pub may_take : Text → Option (Text × ℕ) → Bool
may_take o none = true
may_take o (some (h, t)) = h == o

abbrev pub holds : Text → Option (Text × ℕ) → Bool
holds o none = false
holds o (some (h, t)) = h == o

abbrev pub holder_of : Option (Text × ℕ) → Option Text
holder_of none = none
holder_of (some (h, t)) = some h

-- A session after `n` more seconds.
abbrev pub later : ℕ → Option (Text × ℕ) → Option (Text × ℕ)
later n none = none
later n (some (h, t)) = if leb t n then none else some (h, t - n)

abbrev pub put : Text → Option (Text × ℕ) → Spec → Spec
put r x s j = if r == j then x else s j

abbrev pub grant : Bool → Answer
grant true = Answer.done
grant false = Answer.refused

-- A robot that nobody holds may be released by anybody.
unfoldable pub answer : Op → Spec → Answer
answer (Op.acquire r o) s = grant (may_take o (s r))
answer (Op.renew r o) s = grant (holds o (s r))
answer (Op.release r o) s = grant (may_take o (s r))
answer (Op.require_holder r o) s = grant (holds o (s r))
answer (Op.get_holder r) s = Answer.holder (holder_of (s r))
answer (Op.elapse n) s = Answer.done

module _ (ttl_seconds : ℕ) where
  unfoldable pub after : Op → Spec → Spec
  after (Op.acquire r o) s = if may_take o (s r) then put r (some (o, ttl_seconds)) s else s
  after (Op.renew r o) s = if holds o (s r) then put r (some (o, ttl_seconds)) s else s
  after (Op.release r o) s = if holds o (s r) then put r none s else s
  after (Op.require_holder r o) s = s
  after (Op.get_holder r) s = s
  after (Op.elapse n) s = λ j. later n (s j)

  -- The answers of a sequence of operations, and the sessions after it.
  unfoldable pub replay : List Op → Spec → List Answer × Spec
  replay [] s = ([], s)
  replay (op ∷ ops) s = let (answers, s') = replay ops (after op s) in (answer op s ∷ answers, s')

abbrev pub verdict : {A : Type 0} → Result A → Answer
verdict (ok a) = Answer.done
verdict (err (Error.session_conflict m)) = Answer.refused
verdict (err _) = Answer.failed

abbrev pub named : Result (Option Text) → Answer
named (ok h) = Answer.holder h
named (err e) = Answer.failed

module _ (σ : Services) (ttl_seconds : ℕ) where
  -- The same operations, by the session manager.
  unfoldable pub perform : Op → World σ → Answer × World σ
  perform (Op.acquire r o) w =
      let (res, w') = Sessions.acquire σ ttl_seconds r o w in (verdict res, w')
  perform (Op.renew r o) w = let (res, w') = Sessions.renew σ ttl_seconds r o w in (verdict res, w')
  perform (Op.release r o) w = let (res, w') = Sessions.release σ r o w in (verdict res, w')
  perform (Op.require_holder r o) w =
      let (res, w') = Sessions.require_holder σ r o w in (verdict res, w')
  perform (Op.get_holder r) w = let (res, w') = Sessions.get_holder σ r w in (named res, w')
  perform (Op.elapse n) w =
      (Answer.done, record w { redis = σ.redis.elapse n w.redis; now = w.now + n * 1000 })

  unfoldable pub run : List Op → World σ → List Answer × World σ
  run [] w = ([], w)
  run (op ∷ ops) w =
      let (answer, w₁) = perform op w in let (answers, w₂) = run ops w₁ in (answer ∷ answers, w₂)
