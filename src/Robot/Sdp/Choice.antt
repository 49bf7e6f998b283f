-- ===== src/Robot/Sdp/Choice.antt =====
-- Which payload type of an offer robot-container/robot_agent/sdp_utils.py chooses.
use cloud_robotics.Prelude.{
  ℕ, ◌+◌, ◌<◌, ◌≤◌, ltb, Text, lit, ◌==◌, ==_iff, Bool, true, false, Bool-cases, subst, inl, inr,
  ◌⊎◌, none, some, List, [], ◌∷◌, ◌++◌, All, ◌≡◌, ◌≢◌, ◌∙◌, refl, ap, sym, arith, if◌then◌else◌,
}
use cloud_robotics.Robot.Sdp.{
  Classes, rtpmaps, h264_only, score, lower, max_by, int_of, choose_of, contains, params_of, fmtps,
  choose_offer_h264_payload_type,
}
use cloud_robotics.Robot.Sdp.Best.{max_by-IsFirstBest}

-- How good an entry of this number is: 2 for the packetization mode 1, and 1 for a baseline profile,
-- in the last parameters that are given for the number.
abbrev pub rank : Classes → Text → Text → ℕ
rank re sdp_text pt =
    let fmtp = params_of re pt (fmtps re sdp_text) in
    (if contains (lit "packetization-mode=1") fmtp then 2 else 0)
    + (if contains (lit "profile-level-id=42") fmtp then 1 else 0)

lower-rank :
    (re : Classes) (sdp_text p q : Text)
    → lower (score re sdp_text p) (score re sdp_text q)
      ≡ ltb (rank re sdp_text p) (rank re sdp_text q)
unfolding score
lower-rank re sdp_text p q =
    compared (contains (lit "packetization-mode=1") (params_of re p (fmtps re sdp_text)))
      (contains (lit "profile-level-id=42") (params_of re p (fmtps re sdp_text)))
      (contains (lit "packetization-mode=1") (params_of re q (fmtps re sdp_text)))
      (contains (lit "profile-level-id=42") (params_of re q (fmtps re sdp_text)))
  where
    compared :
        (a b c d : Bool)
        → lower (a, b) (c, d)
          ≡ ltb
              ((if a then 2 else 0) + (if b then 1 else 0))
              ((if c then 2 else 0) + (if d then 1 else 0))
    compared a b c d = ground arith

module _ (re : Classes) (sdp_text best : Text) where
  abbrev IsLower : Text → Type 0
  IsLower q = rank re sdp_text q < rank re sdp_text best

  abbrev IsNoHigher : Text → Type 0
  IsNoHigher q = rank re sdp_text q ≤ rank re sdp_text best

  -- `best` is an H264 entry of the offer, with the entries before and after it.
  pub record Chosen (entries : List (Text × Text)) : Type 0 where
    pub before : List (Text × Text)
    pub after : List (Text × Text)
    pub split : entries ≡ before ++ (best, lit "H264") ∷ after
    pub lower_before :
        All (λ e. e.1 ≡ lit "H264" → rank re sdp_text e.0 < rank re sdp_text best) before
    pub no_higher : All (λ e. e.1 ≡ lit "H264" → rank re sdp_text e.0 ≤ rank re sdp_text best) after

  IsLower-entries :
      (pts : List Text)
      → All (λ q. lower (score re sdp_text q) (score re sdp_text best) ≡ true) pts
      → All IsLower pts
  IsLower-entries [] h = tt
  IsLower-entries (q ∷ pts) h =
      (ground (arith, h.0, lower-rank re sdp_text q best), IsLower-entries pts h.1)

  IsNoHigher-entries :
      (pts : List Text)
      → All (λ q. lower (score re sdp_text best) (score re sdp_text q) ≡ false) pts
      → All IsNoHigher pts
  IsNoHigher-entries [] h = tt
  IsNoHigher-entries (q ∷ pts) h =
      (ground (arith, h.0, lower-rank re sdp_text best q), IsNoHigher-entries pts h.1)

  -- The H264 entries behind the chosen one.
  behind :
      (entries : List (Text × Text))
      → All IsNoHigher (h264_only re entries)
      → All (λ e. e.1 ≡ lit "H264" → IsNoHigher e.0) entries
  behind [] h = tt
  behind ((pt, name) ∷ entries) h = elim (Bool-cases (name == lit "H264")) [
    | inl same ↦
        let both : All IsNoHigher (pt ∷ h264_only re entries) = rw (same) at h in
        (λ e. both.0, behind entries both.1)
    | inr other ↦
        let rest : All IsNoHigher (h264_only re entries) = rw (other) at h in
        (λ e. absurd (ground (arith, e, other, ==_iff name (lit "H264"))), behind entries rest)
  ]

  prepend :
      (pt name : Text) (entries : List (Text × Text))
      → (name ≡ lit "H264" → IsLower pt)
      → Chosen entries
      → Chosen ((pt, name) ∷ entries)
  prepend pt name entries low c = record {
    before = (pt, name) ∷ c.before;
    after = c.after;
    split = ap (λ es. (pt, name) ∷ es) c.split;
    lower_before = (low, c.lower_before);
    no_higher = c.no_higher;
  }

  Chosen-entries :
      (entries : List (Text × Text)) (before after : List Text)
      → h264_only re entries ≡ before ++ best ∷ after
      → All IsLower before
      → All IsNoHigher after
      → Chosen entries
  Chosen-entries [] [] after e low high = cc
  Chosen-entries [] (c ∷ before) after e low high = cc
  Chosen-entries ((pt, name) ∷ entries) before after e low high =
      elim (Bool-cases (name == lit "H264")) [
        | inr other ↦
            prepend pt name entries
              (λ h. absurd (ground (arith, h, other, ==_iff name (lit "H264"))))
              (Chosen-entries entries before after (sym (rw (other) refl) ∙ e) low high)
        | inl same ↦
            let named : name ≡ lit "H264" = (==_iff name (lit "H264")).0 same in
            here named before (sym (rw (same) refl) ∙ e) low
              (λ bs e' low'. Chosen-entries entries bs after e' low' high)
      ]
    where
      here :
          name ≡ lit "H264"
          → (before : List Text) → pt ∷ h264_only re entries ≡ before ++ best ∷ after
          → All IsLower before
          → ((bs : List Text)
              → h264_only re entries ≡ bs ++ best ∷ after
              → All IsLower bs
              → Chosen entries)
          → Chosen ((pt, name) ∷ entries)
      here named [] e low go =
          let first : pt ≡ best = ground arith in
          let tails : after ≡ h264_only re entries = ground arith in
          record {
            before = [];
            after = entries;
            split = ground (arith, first, named);
            lower_before = tt;
            no_higher = behind entries (subst (λ xs. All IsNoHigher xs) tails high);
          }
      here named (c ∷ bs) e low go =
          let first : c ≡ pt = ground arith in
          let tails : h264_only re entries ≡ bs ++ best ∷ after = ground arith in
          prepend pt name entries (λ h. subst (λ x. IsLower x) first low.0) (go bs tails low.1)

no_h264 :
    (re : Classes) (entries : List (Text × Text))
    → h264_only re entries ≡ []
    → All (λ e. e.1 ≢ lit "H264") entries
no_h264 re [] h = tt
no_h264 re ((pt, name) ∷ entries) h =
    (λ e. ground (arith, e, h, ==_iff name (lit "H264")), no_h264 re entries (ground (arith, h)))

-- An offer without an entry whose name is H264 has no choice. Of any other the choice is the number
-- of one of these entries, the first of the best: each of them before it has a lower rank, and none
-- after it a higher one.
pub choose_lem :
    (re : Classes) (sdp_text : Text)
    → (All (λ e. e.1 ≢ lit "H264") (rtpmaps re sdp_text)
        × (choose_offer_h264_payload_type re sdp_text ≡ none))
      ⊎ ((best : Text) × (choose_offer_h264_payload_type re sdp_text ≡ some (int_of re 0 best))
          × Chosen re sdp_text best (rtpmaps re sdp_text))
unfolding choose_offer_h264_payload_type
choose_lem re sdp_text = go (h264_only re (rtpmaps re sdp_text)) refl
  where
    go :
        (pts : List Text)
        → h264_only re (rtpmaps re sdp_text) ≡ pts
        → (All (λ e. e.1 ≢ lit "H264") (rtpmaps re sdp_text) × (choose_of re sdp_text pts ≡ none))
          ⊎ ((best : Text) × (choose_of re sdp_text pts ≡ some (int_of re 0 best))
              × Chosen re sdp_text best (rtpmaps re sdp_text))
    go [] e = inl (no_h264 re (rtpmaps re sdp_text) e, refl)
    go (pt ∷ pts) e =
        let best = max_by (score re sdp_text) pt pts in
        let first = max_by-IsFirstBest (score re sdp_text) pt pts in
        inr (
          best,
          refl,
          Chosen-entries re sdp_text best (rtpmaps re sdp_text) first.before first.after
              (e ∙ first.split) (IsLower-entries re sdp_text best first.before first.lower_before)
              (IsNoHigher-entries re sdp_text best first.after first.no_higher),
        )
