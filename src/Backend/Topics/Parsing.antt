-- ===== src/Backend/Topics/Parsing.antt =====
-- What `parse_topic` accepts (cloud-container/backend/app/mqtt/topics.py), and that it reads back
-- the topics of robot-container/robot_agent/topics.py.
use cloud_robotics.Prelude.{
  ℕ, Text, lit, ◌++◌, ◌≡◌, refl, sym, ◌≢◌, ◌↔◌, ◌⊎◌, inl, inr, ap, ◌∙◌, true, Option, none, some,
  [], ◌∷◌, All, arith, append-nil,
}
use cloud_robotics.Backend.Topics.{
  span_ne, strip_prefix, at_end, match_suffix, match_robot_id, match_rest, parse_topic,
}
use cloud_robotics.Robot.Topics

-- A text without the character `c`.
abbrev pub Lacks : ℕ → Text → Type 0
Lacks c t = All (λ x. x ≢ c) t

pub span_ne-append : (c : ℕ) (xs ys : Text) → Lacks c xs → span_ne c (xs ++ (c ∷ ys)) ≡ (xs, c ∷ ys)
unfolding span_ne
span_ne-append c [] ys h = ground arith
span_ne-append c (x ∷ xs) ys h = ground (arith, span_ne-append c xs ys h.1)

pub span_ne_all : (c : ℕ) (xs : Text) → Lacks c xs → span_ne c xs ≡ (xs, [])
unfolding span_ne
span_ne_all c [] h = refl
span_ne_all c (x ∷ xs) h = ground (arith, span_ne_all c xs h.1)

pub span_ne-Lacks : (c : ℕ) (t : Text) → Lacks c (span_ne c t).0
unfolding span_ne
span_ne-Lacks c [] = tt
span_ne-Lacks c (x ∷ xs) = ground (arith, span_ne-Lacks c xs)

pub append-span_ne : (c : ℕ) (t : Text) → (span_ne c t).0 ++ (span_ne c t).1 ≡ t
unfolding span_ne
append-span_ne c [] = refl
append-span_ne c (x ∷ xs) = ground (arith, append-span_ne c xs)

pub strip_prefix-append : (p t : Text) → strip_prefix p (p ++ t) ≡ some t
unfolding strip_prefix
strip_prefix-append [] t = refl
strip_prefix-append (x ∷ p) t = ground (arith, strip_prefix-append p t)

pub append_of_strip_prefix : (p t r : Text) → strip_prefix p t ≡ some r → t ≡ p ++ r
unfolding strip_prefix
append_of_strip_prefix [] t r h = cc
append_of_strip_prefix (x ∷ p) [] r h = cc
append_of_strip_prefix (x ∷ p) (c ∷ t) r h = ground (arith, append_of_strip_prefix p t r)

-- `robots/{robot_id}/{suffix}`, then `tail`.
abbrev pub written : Text → Text → Text → Text
written robot_id suffix tail = lit "robots/" ++ (robot_id ++ (b'/' ∷ (suffix ++ tail)))

-- The topics that the expression describes, with its two groups.
pub record IsTopic (topic robot_id suffix : Text) : Type 0 where
  pub robot_id-ne-nil : robot_id ≢ []
  pub robot_id_segment : Lacks b'/' robot_id
  pub suffix-ne-nil : suffix ≢ []
  pub suffix_line : Lacks 10 suffix
  pub topic_written :
      (topic ≡ written robot_id suffix []) ⊎ (topic ≡ written robot_id suffix (10 ∷ []))

at_end-cases : (t : Text) → at_end t ≡ true → (t ≡ []) ⊎ (t ≡ 10 ∷ [])
at_end-cases [] h = inl refl
at_end-cases (c ∷ []) h = ground arith
at_end-cases (c ∷ d ∷ t) h = cc

span_ne-tail :
    (suffix tail : Text)
    → Lacks 10 suffix
    → at_end tail ≡ true
    → span_ne 10 (suffix ++ tail) ≡ (suffix, tail)
span_ne-tail suffix tail h e = elim (at_end-cases tail e) [
  | inl p ↦ rw (p, append-nil) (span_ne_all 10 suffix h)
  | inr p ↦ rw p (span_ne-append 10 suffix [] h)
]

match_suffix-some :
    (id : Text) (suffix tail : Text)
    → suffix ≢ []
    → at_end tail ≡ true
    → match_suffix id (suffix, tail) ≡ some (id, suffix)
match_suffix-some id [] tail n e = absurd (n refl)
match_suffix-some id (c ∷ suffix) tail n e = rw e

parse_topic-written :
    (id suffix tail : Text)
    → id ≢ []
    → Lacks b'/' id
    → suffix ≢ []
    → Lacks 10 suffix
    → at_end tail ≡ true
    → parse_topic (written id suffix tail) ≡ some (id, suffix)
unfolding parse_topic
parse_topic-written [] suffix tail n l m k e = absurd (n refl)
parse_topic-written (c ∷ id) suffix tail n l m k e =
    ap match_rest (strip_prefix-append (lit "robots/") ((c ∷ id) ++ (b'/' ∷ (suffix ++ tail))))
    ∙ ap match_robot_id (span_ne-append b'/' (c ∷ id) (suffix ++ tail) l)
    ∙ ap (match_suffix (c ∷ id)) (span_ne-tail suffix tail k e)
    ∙ match_suffix-some (c ∷ id) suffix tail m e

parse_topic_complete :
    (t id suffix : Text) → IsTopic t id suffix → parse_topic t ≡ some (id, suffix)
parse_topic_complete t id suffix h = elim h.topic_written [
  | inl e ↦ rw e (
      parse_topic-written id suffix [] h.robot_id-ne-nil h.robot_id_segment h.suffix-ne-nil
        h.suffix_line refl)
  | inr e ↦ rw e (
      parse_topic-written id suffix (10 ∷ []) h.robot_id-ne-nil h.robot_id_segment h.suffix-ne-nil
        h.suffix_line refl)
]

span_ne-rest : (c : ℕ) (t : Text) (d : ℕ) (r : Text) → (span_ne c t).1 ≡ d ∷ r → d ≡ c
unfolding span_ne
span_ne-rest c [] d r h = cc
span_ne-rest c (x ∷ xs) d r h = ground (arith, span_ne-rest c xs d r)

match_suffix_sound :
    (id t : Text) {id' suffix : Text}
    → match_suffix id (span_ne 10 t) ≡ some (id', suffix)
    → (id' ≡ id)
      × (suffix ≢ [])
      × Lacks 10 suffix
      × ((t ≡ suffix ++ []) ⊎ (t ≡ suffix ++ (10 ∷ [])))
match_suffix_sound id t h = go (span_ne 10 t) (span_ne-Lacks 10 t) (append-span_ne 10 t) h
  where
    go :
        (p : Text × Text) {id' suffix : Text}
        → Lacks 10 p.0
        → p.0 ++ p.1 ≡ t
        → match_suffix id p ≡ some (id', suffix)
        → (id' ≡ id)
          × (suffix ≢ [])
          × Lacks 10 suffix
          × ((t ≡ suffix ++ []) ⊎ (t ≡ suffix ++ (10 ∷ [])))
    go ([], rest) l e h = cc
    go (c ∷ suf, []) l e h = ground arith
    go (c ∷ suf, d ∷ []) l e h = ground arith
    go (c ∷ suf, d ∷ d' ∷ r) l e h = cc

match_rest_sound :
    (r : Option Text) {id suffix : Text}
    → match_rest r ≡ some (id, suffix)
    → (t : Text) × (r ≡ some t) × (match_robot_id (span_ne b'/' t) ≡ some (id, suffix))
match_rest_sound none h = cc
match_rest_sound (some t) h = (t, refl, h)

match_robot_id_sound :
    (t : Text) {id suffix : Text}
    → match_robot_id (span_ne b'/' t) ≡ some (id, suffix)
    → IsTopic (lit "robots/" ++ t) id suffix
match_robot_id_sound t =
    go (span_ne b'/' t) (span_ne-Lacks b'/' t) (append-span_ne b'/' t) (span_ne-rest b'/' t)
  where
    go :
        (p : Text × Text) {id suffix : Text}
        → Lacks b'/' p.0
        → p.0 ++ p.1 ≡ t
        → ((d : ℕ) (r : Text) → p.1 ≡ d ∷ r → d ≡ b'/')
        → match_robot_id p ≡ some (id, suffix)
        → IsTopic (lit "robots/" ++ t) id suffix
    go ([], rest) l e s h = cc
    go (c ∷ id, []) l e s h = cc
    go (c ∷ id, d ∷ rest) l e s h =
        let (same, suffix-ne-nil, line, shape) = match_suffix_sound (c ∷ id) rest h in
        record {
          robot_id-ne-nil = ground arith;
          robot_id_segment = rw same l;
          suffix-ne-nil = suffix-ne-nil;
          suffix_line = line;
          topic_written = elim shape [
            | inl q ↦ inl (rw (same, ← e, s d rest refl, q) refl)
            | inr q ↦ inr (rw (same, ← e, s d rest refl, q) refl)
          ];
        }

-- `parse_topic` answers (robot_id, suffix) exactly when the topic is `robots/{robot_id}/{suffix}`,
-- or that and a final newline, with a robot id that is not empty and has no slash and a suffix that
-- is not empty and has no newline.
pub parse_topic_iff :
    (t id suffix : Text) → (parse_topic t ≡ some (id, suffix)) ↔ IsTopic t id suffix
unfolding parse_topic
parse_topic_iff t id suffix = (sound, parse_topic_complete t id suffix)
  where
    sound : parse_topic t ≡ some (id, suffix) → IsTopic t id suffix
    sound h =
        let (r, e, m) = match_rest_sound (strip_prefix (lit "robots/") t) h in
        rw (append_of_strip_prefix (lit "robots/") t r e) (match_robot_id_sound r m)

-- A robot id that the topics of a robot can carry.
pub record IsRobotId (robot_id : Text) : Type 0 where
  pub ne-nil : robot_id ≢ []
  pub segment : Lacks b'/' robot_id

pub read_back :
    (id suffix : Text)
    → IsRobotId id
    → suffix ≢ []
    → Lacks 10 suffix
    → parse_topic (lit "robots/" ++ (id ++ (lit "/" ++ suffix))) ≡ some (id, suffix)
read_back id suffix h n l =
    ap (λ s. parse_topic (lit "robots/" ++ (id ++ (b'/' ∷ s)))) (sym (append-nil suffix))
    ∙ parse_topic-written id suffix [] h.ne-nil h.segment n l refl

-- The backend reads every topic that a robot publishes on back as the robot's id and the suffix
-- under which main.py registers a handler, for an id that is not empty and has no slash.
pub parse_topic-robot_topics :
    (id : Text)
    → IsRobotId id
    → (parse_topic (Topics.status_topic id) ≡ some (id, lit "status"))
      × (parse_topic (Topics.telemetry_topic id) ≡ some (id, lit "telemetry"))
      × (parse_topic (Topics.health_topic id) ≡ some (id, lit "health"))
      × (parse_topic (Topics.heartbeat_topic id) ≡ some (id, lit "heartbeat"))
      × (parse_topic (Topics.lidar_topic id) ≡ some (id, lit "lidar"))
      × (parse_topic (Topics.camera_answer_topic id) ≡ some (id, lit "camera/answer"))
parse_topic-robot_topics id h = (
  read_back id (lit "status") h (ground arith) (omega arith),
  read_back id (lit "telemetry") h (ground arith) (omega arith),
  read_back id (lit "health") h (ground arith) (omega arith),
  read_back id (lit "heartbeat") h (ground arith) (omega arith),
  read_back id (lit "lidar") h (ground arith) (omega arith),
  read_back id (lit "camera/answer") h (ground arith) (omega arith),
)
