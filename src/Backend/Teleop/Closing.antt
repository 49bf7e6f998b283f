-- ===== src/Backend/Teleop/Closing.antt =====
-- What a teleop connection leaves, and what it sends (cloud-container/backend/app/ws/teleop.py).
use cloud_robotics.Prelude.{
  ℕ, ◌+◌, ◌≤◌, Text, ◌≡◌, refl, sym, ◌≢◌, ◌∙◌, ap, inl, inr, Bool, true, false, Option, some, max,
  subst, if◌then◌else◌, List, [], ◌∷◌, ◌++◌, append_assoc, append-nil, length, length-append, All,
  All-append, arith,
}
use cloud_robotics.Exec.{Result, is_ok, ok, err, Error, websocket_disconnect}
use cloud_robotics.Services.{Services}
use cloud_robotics.Backend.World.{World, Packet}
use cloud_robotics.Backend.Models.{Command}
use cloud_robotics.Backend.Topics.{cmd_topic}
use cloud_robotics.Backend.Sessions.{get_holder}
use cloud_robotics.Backend.Sessions.Ending.{release_ends}
use cloud_robotics.Backend.Fleet
use cloud_robotics.Backend.Fleet.Commands.{IsKnown, release_session_known}
use cloud_robotics.Backend.Fleet.Commands.Senders.{sent_only_by_holder}
use cloud_robotics.Backend.Teleop.{
  Frame, message, undecodable, elsewhere, Reply, session_acquired, unknown_robot, invalid_command,
  sent, error, Request, run, refuse, fail, request, perform, answer, serve, close, after_answer,
  teleop,
}

-- Whether a frame is one that the client sent.
abbrev pub FromClient : {σ : Services} → Frame σ → Type 0
FromClient (message v taken) = Unit {0}
FromClient undecodable = Unit {0}
FromClient (elsewhere step) = ⊥

-- The replies that report a command as sent.
abbrev pub is_sent : Reply → ℕ
is_sent (sent c) = 1
is_sent session_acquired = 0
is_sent unknown_robot = 0
is_sent (invalid_command v) = 0
is_sent (error m) = 0

abbrev pub count_sent : List Reply → ℕ
count_sent [] = 0
count_sent (reply ∷ replies) = is_sent reply + count_sent replies

-- 1 if some reply is not taken, or else 0.
abbrev pub untaken : {σ : Services} → List (Frame σ) → ℕ
untaken [] = 0
untaken (message v taken ∷ frames) = max (untaken frames) (if taken then 0 else 1)
untaken (undecodable ∷ frames) = untaken frames
untaken (elsewhere step ∷ frames) = untaken frames

is_sent_le : (reply : Reply) → is_sent reply ≤ 1
is_sent_le (sent c) = omega arith
is_sent_le session_acquired = omega arith
is_sent_le unknown_robot = omega arith
is_sent_le (invalid_command v) = omega arith
is_sent_le (error m) = omega arith

abbrev sent_of : Result Reply → ℕ
sent_of (ok reply) = is_sent reply
sent_of (err e) = 0

-- `w'` has handed `n` more messages to paho than `w`, all on the robot's command topic.
pub record Sends {σ : Services} (w w' : World σ) (r : Text) (n : ℕ) : Type 0 where
  pub packets : List Packet
  pub published : w'.published ≡ w.published ++ packets
  pub on_topic : All (λ p. p.topic ≡ cmd_topic r) packets
  pub counted : length packets ≡ n

module _ (σ : Services) (ttl : ℕ) (r o : Text) where
  teleop_closed :
      (frames : List (Frame σ)) (w : World σ)
      → is_ok (Fleet.acquire_session σ ttl r o w).0 ≡ true
      → (teleop σ ttl r o true frames w).1
        ≡ close σ ttl r o (serve σ ttl r o frames (Fleet.acquire_session σ ttl r o w).1).1
  unfolding teleop
  teleop_closed frames w acquired = ground arith

  teleop_unclosed :
      (frames : List (Frame σ)) (w : World σ)
      → is_ok (Fleet.acquire_session σ ttl r o w).0 ≡ true
      → teleop σ ttl r o false frames w
        ≡ (([], some websocket_disconnect), (Fleet.acquire_session σ ttl r o w).1)
  unfolding teleop
  teleop_unclosed frames w acquired = ground arith

  -- A connection that acquired its session, and whose client takes the first message, ends it:
  -- whatever frames came and however the loop was left, by a disconnection in the middle of a reply
  -- too, its operator does not hold the robot afterwards, if the registry answers for the robot. If
  -- the client is gone at the first message, the session stays as it was acquired.
  pub teleop_releases :
      (frames : List (Frame σ)) (w : World σ)
      → is_ok (Fleet.acquire_session σ ttl r o w).0 ≡ true
      → IsKnown σ (serve σ ttl r o frames (Fleet.acquire_session σ ttl r o w).1).1 r
      → ((get_holder σ r (teleop σ ttl r o true frames w).1).0 ≢ ok (some o))
        × (teleop σ ttl r o false frames w
            ≡ (([], some websocket_disconnect), (Fleet.acquire_session σ ttl r o w).1))
  teleop_releases frames w acquired known =
      let v = (serve σ ttl r o frames (Fleet.acquire_session σ ttl r o w).1).1 in
      (
        rw (teleop_closed frames w acquired) (λ e. release_ends σ v r o (
            ap (λ (p : Result (Unit {0}) × World σ). (get_holder σ r p.1).0)
              (sym (release_session_known σ v r o known))
            ∙ e)),
        teleop_unclosed frames w acquired,
      )

  Sends-none : (w w' : World σ) → w'.published ≡ w.published → Sends w w' r 0
  Sends-none w w' e = record {
    packets = [];
    published = e ∙ sym (append-nil _);
    on_topic = tt;
    counted = refl;
  }

  published-perform :
      (c : Command) (w : World σ)
      → (perform σ ttl r o c w).1.published ≡ (Fleet.send_command σ ttl r o c w).1.published
  published-perform c w = ground arith

  unsent :
      (c : Command) (w : World σ)
      → is_ok (Fleet.send_command σ ttl r o c w).0 ≡ false
      → sent_of (perform σ ttl r o c w).0 ≡ 0
  unsent c w h = ground arith

  perform_ok :
      (c : Command) (w : World σ)
      → (Fleet.send_command σ ttl r o c w).0 ≡ ok tt
      → (perform σ ttl r o c w).0 ≡ ok (sent c)
  perform_ok c w h = ground arith

  perform-Sends :
      (c : Command) (w : World σ)
      → Sends w (perform σ ttl r o c w).1 r (sent_of (perform σ ttl r o c w).0)
  perform-Sends c w = elim (sent_only_by_holder σ ttl w r o c) [
    | inl (failed, same) ↦
        rw (unsent c w failed)
          (Sends-none w (perform σ ttl r o c w).1 (published-perform c w ∙ same))
    | inr (done, (p, grown, topic), who) ↦ rw (perform_ok c w done) (record {
      packets = p ∷ [];
      published = published-perform c w ∙ grown;
      on_topic = (topic, tt);
      counted = refl;
    })
  ]

  answer-Sends :
      (q : Request) (w : World σ)
      → Sends w (answer σ ttl r o q w).1 r (sent_of (answer σ ttl r o q w).0)
  answer-Sends (run c) w = perform-Sends c w
  answer-Sends (refuse v) w = Sends-none w w refl
  answer-Sends (fail e) w = Sends-none w w refl

  Sends-trans : (u v w : World σ) (m n : ℕ) → Sends u v r m → Sends v w r n → Sends u w r (m + n)
  Sends-trans u v w m n a b = record {
    packets = a.packets ++ b.packets;
    published =
        b.published
        ∙ ap (λ ps. ps ++ b.packets) a.published
        ∙ append_assoc u.published a.packets b.packets;
    on_topic = All-append (λ p. p.topic ≡ cmd_topic r) a.packets b.packets a.on_topic b.on_topic;
    counted = omega (arith, length-append a.packets b.packets, a.counted, b.counted);
  }

  -- The messages of one frame and those of the rest, if the loop goes on.
  after_answer-Sends :
      (taken : Bool) (w : World σ) (p : Result Reply × World σ)
      (q : (List Reply × Option Error) × World σ) (n : ℕ)
      → Sends w p.1 r (sent_of p.0)
      → Sends p.1 q.1 r (count_sent q.0.0 + n)
      → let a = after_answer σ ttl r o taken p q in
        (k : ℕ) × Sends w a.1 r (count_sent a.0.0 + k) × (k ≤ max n (if taken then 0 else 1))
  after_answer-Sends true w (ok reply, v) ((replies, e), u) n first rest = (
    n,
    subst (λ m. Sends w u r m) (omega arith)
        (Sends-trans w v u (is_sent reply) (count_sent replies + n) first rest),
    omega arith,
  )
  after_answer-Sends false w (ok reply, v) ((replies, e), u) n first rest = (
    is_sent reply,
    subst (λ m. Sends w v r m) (omega arith) first,
    ground (arith, is_sent_le reply),
  )
  after_answer-Sends true w (err x, v) ((replies, e), u) n first rest = (0, first, omega arith)
  after_answer-Sends false w (err x, v) ((replies, e), u) n first rest = (0, first, omega arith)

  -- While only the client acts, the loop hands paho a message for each `sent` reply that the client
  -- takes, and at most one more, if a reply is not taken; all are on the command topic of the
  -- connection's robot: no other frame has any effect on a robot.
  pub serve-Sends :
      (frames : List (Frame σ)) (w : World σ)
      → All FromClient frames
      → let ((replies, e), w') = serve σ ttl r o frames w in
        (k : ℕ) × Sends w w' r (count_sent replies + k) × (k ≤ untaken frames)
  unfolding serve
  serve-Sends [] w c = (0, Sends-none w w refl, omega arith)
  serve-Sends (undecodable ∷ frames) w c = (0, Sends-none w w refl, omega arith)
  serve-Sends (elsewhere step ∷ frames) w c = absurd c.0
  serve-Sends (message v taken ∷ frames) w c =
      let step = answer σ ttl r o (request v) w in
      let (n, sends, le) = serve-Sends frames step.1 c.1 in
      let (k, all, le') =
        after_answer-Sends taken w step (serve σ ttl r o frames step.1) n
          (answer-Sends (request v) w) sends in
      (k, all, ground (arith, le, le'))
