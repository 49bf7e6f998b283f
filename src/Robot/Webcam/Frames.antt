-- ===== src/Robot/Webcam/Frames.antt =====
-- Which frames the node of webcam_driver.py publishes.
use Prim.Native.Nat.{◌%◌}
use cloud_robotics.Prelude.{
  ℕ, ◌+◌, ◌<◌, false, none, some, List, [], ◌∷◌, ◌++◌, length, length-append, ◌≡◌, sym, ◌∙◌, ap,
  arith, map, append_assoc, append-nil, ◌⊎◌, inl, inr, Bool-cases, Option-cases, ◌||◌, ◌&&◌, ltb,
  ◌-◌,
}
use cloud_robotics.Robot.Webcam.{
  Frame, WebcamDriver, Tick, image_of, try_open_device, publish_bgr, synthetic_frame, on_timer, run,
}

-- The frames that the device has read, where it read one.
abbrev pub frames_of : List Tick → List Frame
frames_of [] = []
frames_of (t ∷ ts) = let rest = frames_of ts in elim t.reads [ none ↦ rest | some f ↦ f ∷ rest ]

-- Some of a list's members, in its order.
pub data Subsequence {A : Type 0} : List A → List A → Type 0 where
  stop : Subsequence [] []
  pass_over : (x : A) (xs ys : List A) → Subsequence xs ys → Subsequence xs (x ∷ ys)
  keep : (x : A) (xs ys : List A) → Subsequence xs ys → Subsequence (x ∷ xs) (x ∷ ys)

passed :
    (t : Tick) (ts : List Tick) (fs : List Frame)
    → Subsequence fs (frames_of ts)
    → Subsequence fs (frames_of (t ∷ ts))
passed t ts fs sub = elim (Option-cases t.reads) [
  | inl e ↦ rw (e) sub
  | inr (f, e) ↦ rw (e) (pass_over f fs (frames_of ts) sub)
]

kept :
    (t : Tick) (ts : List Tick) (f : Frame) (fs : List Frame)
    → t.reads ≡ some f
    → Subsequence fs (frames_of ts)
    → Subsequence (f ∷ fs) (frames_of (t ∷ ts))
kept t ts f fs e sub = rw (e) (keep f fs (frames_of ts) sub)

module _ (draw : ℕ → Frame) where
  -- A tick without the test pattern publishes nothing, or the frame that the device reads.
  tick_cases :
      (t : Tick) (d : WebcamDriver)
      → d.test_pattern_fallback ≡ false
      → ((on_timer draw t d).images ≡ d.images)
        ⊎ ((f : Frame) × (t.reads ≡ some f)
            × ((on_timer draw t d).images ≡ d.images ++ image_of f ∷ []))
  unfolding on_timer try_open_device publish_bgr synthetic_frame
  tick_cases t d h = elim (Option-cases t.reads) [
    | inl e ↦ inl (ground arith)
    | inr (f, e) ↦
        elim (Bool-cases (d.has_cap || (ltb 5000 (t.now - d.last_open_attempt) && t.opens))) [
          | inl up ↦ inr (f, e, ground arith)
          | inr down ↦ inl (ground arith)
        ]
  ]

  test_pattern_fallback-on_timer :
      (t : Tick) (d : WebcamDriver)
      → (on_timer draw t d).test_pattern_fallback ≡ d.test_pattern_fallback
  unfolding on_timer try_open_device publish_bgr synthetic_frame
  test_pattern_fallback-on_timer t d = ground arith

  -- A node without the test pattern publishes images of frames that the camera has read, in their
  -- order, and no other.
  pub run-real_frames :
      (ts : List Tick) (d : WebcamDriver)
      → d.test_pattern_fallback ≡ false
      → (fs : List Frame) × ((run draw ts d).images ≡ d.images ++ map image_of fs)
        × Subsequence fs (frames_of ts)
  unfolding run
  run-real_frames [] d h = ([], sym (append-nil d.images), stop)
  run-real_frames (t ∷ ts) d h =
      let (fs, images, sub) =
        run-real_frames ts (on_timer draw t d) (test_pattern_fallback-on_timer t d ∙ h) in
      elim (tick_cases t d h) [
        | inl same ↦ (fs, images ∙ ap (λ xs. xs ++ map image_of fs) same, passed t ts fs sub)
        | inr (f, read, more) ↦ (
          f ∷ fs,
          images
              ∙ ap (λ xs. xs ++ map image_of fs) more
              ∙ append_assoc d.images (image_of f ∷ []) (map image_of fs),
          kept t ts f fs read sub,
        )
      ]

  on_timer-counts :
      (t : Tick) (d : WebcamDriver)
      → d.frames_published ≡ length d.images
      → d.synthetic_hue < 180
      → ((on_timer draw t d).frames_published ≡ length (on_timer draw t d).images)
        × ((on_timer draw t d).synthetic_hue < 180)
  unfolding on_timer try_open_device publish_bgr synthetic_frame
  on_timer-counts t d h k =
      let hue = (d.synthetic_hue + 2) % 180 in
      let below : hue < 180 = omega arith in
      let drawn = length-append d.images (image_of (draw hue) ∷ []) in
      elim (Option-cases t.reads) [
        | inl e ↦ ground (arith, drawn, below)
        | inr (f, e) ↦ ground (arith, drawn, below, length-append d.images (image_of f ∷ []))
      ]

  -- Whatever the ticks, the counter is the number of published images, and the hue stays below 180.
  pub run-counts :
      (ts : List Tick) (d : WebcamDriver)
      → d.frames_published ≡ length d.images
      → d.synthetic_hue < 180
      → ((run draw ts d).frames_published ≡ length (run draw ts d).images)
        × ((run draw ts d).synthetic_hue < 180)
  unfolding run
  run-counts [] d h k = (h, k)
  run-counts (t ∷ ts) d h k =
      let (h', k') = on_timer-counts t d h k in run-counts ts (on_timer draw t d) h' k'
