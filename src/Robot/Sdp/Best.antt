-- ===== src/Robot/Sdp/Best.antt =====
-- What `max` with a key finds (robot-container/robot_agent/sdp_utils.py).
use cloud_robotics.Prelude.{
  Text, Bool, true, false, Bool-cases, subst, inl, inr, ◌⊎◌, List, [], ◌∷◌, ◌++◌, All, ◌≡◌, refl,
  ap, sym, arith,
}
use cloud_robotics.Robot.Sdp.{lower, max_by}

-- `best` is the first of the entries that no entry exceeds: those before it are lower, those after
-- it no higher.
pub record IsFirstBest (key : Text → Bool × Bool) (best : Text) (pts : List Text) : Type 0 where
  pub before : List Text
  pub after : List Text
  pub split : pts ≡ before ++ best ∷ after
  pub lower_before : All (λ q. lower (key q) (key best) ≡ true) before
  pub no_higher : All (λ q. lower (key best) (key q) ≡ false) after

lower_trans : (x y z : Bool × Bool) → lower x y ≡ true → lower y z ≡ true → lower x z ≡ true
lower_trans (a, b) (c, d) (e, f) h k = ground arith

lower_other : (x y z : Bool × Bool) → lower x y ≡ false → lower x z ≡ true → lower y z ≡ true
lower_other (a, b) (c, d) (e, f) h k = ground arith

-- A list that starts with `b`, split at its best entry: that is `b`, or stands behind it.
first_cases :
    (key : Text → Bool × Bool) (best b : Text) (pts before after : List Text)
    → b ∷ pts ≡ before ++ best ∷ after
    → All (λ q. lower (key q) (key best) ≡ true) before
    → All (λ q. lower (key best) (key q) ≡ false) after
    → ((best ≡ b) × All (λ q. lower (key best) (key q) ≡ false) pts)
      ⊎ ((lower (key b) (key best) ≡ true) × IsFirstBest key best pts)
first_cases key best b pts [] after e low high =
    let tails : after ≡ pts = ground arith in
    inl (ground arith, subst (λ xs. All (λ q. lower (key best) (key q) ≡ false) xs) tails high)
first_cases key best b pts (c ∷ before) after e low high =
    let heads : c ≡ b = ground arith in
    inr (
      subst (λ x. lower (key x) (key best) ≡ true) heads low.0,
      record {
        before = before;
        after = after;
        split = ground arith;
        lower_before = low.1;
        no_higher = high;
      },
    )

pub max_by-IsFirstBest :
    (key : Text → Bool × Bool) (b : Text) (pts : List Text)
    → IsFirstBest key (max_by key b pts) (b ∷ pts)
unfolding max_by
max_by-IsFirstBest key b [] = record {
  before = [];
  after = [];
  split = refl;
  lower_before = tt;
  no_higher = tt;
}
max_by-IsFirstBest key b (pt ∷ pts) = elim (Bool-cases (lower (key b) (key pt))) [
  | inl up ↦ rw (up) (raised up (max_by-IsFirstBest key pt pts))
  | inr same ↦ rw (same) (stayed same (max_by-IsFirstBest key b pts))
]
  where
    chain :
        lower (key b) (key pt) ≡ true
        → IsFirstBest key (max_by key pt pts) (pt ∷ pts)
        → lower (key b) (key (max_by key pt pts)) ≡ true
    chain up h =
        elim (first_cases key (max_by key pt pts) pt pts h.before h.after h.split h.lower_before
          h.no_higher) [
            | inl (first, high) ↦ subst (λ x. lower (key b) (key x) ≡ true) (sym first) up
            | inr (low, behind) ↦ lower_trans (key b) (key pt) (key (max_by key pt pts)) up low
          ]

    raised :
        lower (key b) (key pt) ≡ true
        → IsFirstBest key (max_by key pt pts) (pt ∷ pts)
        → IsFirstBest key (max_by key pt pts) (b ∷ pt ∷ pts)
    raised up h = record {
      before = b ∷ h.before;
      after = h.after;
      split = ap (λ xs. b ∷ xs) h.split;
      lower_before = (chain up h, h.lower_before);
      no_higher = h.no_higher;
    }

    stayed :
        lower (key b) (key pt) ≡ false
        → IsFirstBest key (max_by key b pts) (b ∷ pts)
        → IsFirstBest key (max_by key b pts) (b ∷ pt ∷ pts)
    stayed same h =
        elim (first_cases key (max_by key b pts) b pts h.before h.after h.split h.lower_before
          h.no_higher) [
            | inl (first, high) ↦ record {
              before = [];
              after = pt ∷ pts;
              split = ap (λ x. x ∷ pt ∷ pts) (sym first);
              lower_before = tt;
              no_higher = (subst (λ x. lower (key x) (key pt) ≡ false) (sym first) same, high);
            }
            | inr (low, behind) ↦ record {
              before = b ∷ pt ∷ behind.before;
              after = behind.after;
              split = ap (λ xs. b ∷ pt ∷ xs) behind.split;
              lower_before = (
                low,
                (
                  lower_other (key b) (key pt) (key (max_by key b pts)) same low,
                  behind.lower_before,
                ),
              );
              no_higher = behind.no_higher;
            }
          ]
