-- ===== src/Backend/Fleet/Commands/Senders.antt =====
-- Whose commands cloud-container/backend/app/fleet/manager.py sends.
use cloud_robotics.Prelude.{
  ℕ, Text, ◌++◌, ◌≡◌, refl, ◌∙◌, ◌⊎◌, inl, inr, false, some, [], ◌∷◌, arith,
}
use cloud_robotics.Exec.{Result, is_ok, ok, err, Error}
use cloud_robotics.Services.{Services}
use cloud_robotics.Backend.World.{World, Packet}
use cloud_robotics.Backend.Models.{Command, forward, backward, left, right, stop}
use cloud_robotics.Backend.Topics.{cmd_topic}
use cloud_robotics.Backend.Mqtt.{publish_command}
use cloud_robotics.Backend.Sessions.{get_holder}
use cloud_robotics.Backend.Sessions.Holding.{require_holder_cases, published-renew}
use cloud_robotics.Backend.Fleet.{require_known, hold_session, authorise, send_command}
use cloud_robotics.Backend.Fleet.Commands.{command_packet, require_known_cases}

module _ (σ : Services) where
  hold_session_cases :
      (ttl : ℕ) (w : World σ) (r o : Text)
      → ((get_holder σ r w ≡ (ok (some o), w))
          × ((hold_session σ ttl r o w).1.published ≡ w.published))
        ⊎ ((x : Error) × (hold_session σ ttl r o w ≡ (err x, w)))
  hold_session_cases ttl w r o = elim (require_holder_cases σ w r o) [
    | inl (held, e) ↦ inl (held, ground (arith, e, published-renew σ ttl w r o))
    | inr (x, e) ↦ inr (x, ground (arith, e))
  ]

  abbrev pub MayCommand : World σ → Text → Text → Command → Type 0
  MayCommand w r o c = (c ≡ stop) ⊎ (get_holder σ r w ≡ (ok (some o), w))

  authorise_cases :
      (ttl : ℕ) (w : World σ) (r o : Text) (c : Command)
      → (MayCommand w r o c × ((authorise σ ttl r o c w).1.published ≡ w.published))
        ⊎ ((x : Error) × (authorise σ ttl r o c w ≡ (err x, w)))
  authorise_cases ttl w r o c = by_command c
    where
      driving :
          (c : Command)
          → authorise σ ttl r o c w ≡ hold_session σ ttl r o w
          → (MayCommand w r o c × ((authorise σ ttl r o c w).1.published ≡ w.published))
            ⊎ ((x : Error) × (authorise σ ttl r o c w ≡ (err x, w)))
      driving c e = elim (hold_session_cases ttl w r o) [
        | inl (held, p) ↦ inl (inr held, rw e p)
        | inr (x, p) ↦ inr (x, e ∙ p)
      ]

      by_command :
          (c : Command)
          → (MayCommand w r o c × ((authorise σ ttl r o c w).1.published ≡ w.published))
            ⊎ ((x : Error) × (authorise σ ttl r o c w ≡ (err x, w)))
      by_command stop = inl (inl refl, refl)
      by_command forward = driving forward refl
      by_command backward = driving backward refl
      by_command left = driving left refl
      by_command right = driving right refl

  -- What a call of `send_command` adds to the packets, and for whom.
  pub sent_cases :
      (ttl : ℕ) (w : World σ) (r o : Text) (c : Command)
      → let (res, w') = send_command σ ttl r o c w in
        ((is_ok res ≡ false) × (w'.published ≡ w.published))
        ⊎ ((res ≡ ok tt)
            × ((v : World σ) × (w'.published ≡ w.published ++ command_packet σ v r c ∷ []))
            × MayCommand w r o c)
  unfolding send_command publish_command
  sent_cases ttl w r o c = elim (require_known_cases σ w r) [
    | inr (x, e) ↦ inl (ground (arith, e), ground (arith, e))
    | inl (k, e) ↦ elim (authorise_cases ttl w r o c) [
      | inr (x, f) ↦ inl (ground (arith, e, f), ground (arith, e, f))
      | inl (who, f) ↦ after e who f (authorise σ ttl r o c w) refl
    ]
  ]
    where
      after :
          require_known σ r w ≡ (ok tt, w)
          → MayCommand w r o c
          → (authorise σ ttl r o c w).1.published ≡ w.published
          → (p : Result (Unit {0}) × World σ) → authorise σ ttl r o c w ≡ p
          → let (res, w') = send_command σ ttl r o c w in
            ((is_ok res ≡ false) × (w'.published ≡ w.published))
            ⊎ ((res ≡ ok tt)
                × ((v : World σ) × (w'.published ≡ w.published ++ command_packet σ v r c ∷ []))
                × MayCommand w r o c)
      after e who f (ok tt, w') g = inr (ground (arith, e, g), (w', ground (arith, e, g, f)), who)
      after e who f (err x, w') g = inl (ground (arith, e, g), ground (arith, e, g, f))

  -- Who gets a command through. Either the call raises and nothing is sent; or it returns, one message
  -- is sent, and the command was a stop or its operator the holder that `get_holder` names.
  pub sent_only_by_holder :
      (ttl : ℕ) (w : World σ) (r o : Text) (c : Command)
      → let (res, w') = send_command σ ttl r o c w in
        ((is_ok res ≡ false) × (w'.published ≡ w.published))
        ⊎ ((res ≡ ok tt)
            × ((p : Packet) × (w'.published ≡ w.published ++ p ∷ []) × (p.topic ≡ cmd_topic r))
            × MayCommand w r o c)
  sent_only_by_holder ttl w r o c = elim (sent_cases ttl w r o c) [
    | inl refused ↦ inl refused
    | inr (ends, (v, sent), who) ↦ inr (ends, (command_packet σ v r c, sent, refl), who)
  ]
