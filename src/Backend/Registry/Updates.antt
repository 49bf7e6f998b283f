-- ===== src/Backend/Registry/Updates.antt =====
-- What the MQTT handlers of cloud-container/backend/app/registry/store.py write, and what the
-- readers answer afterwards.
use cloud_robotics.Prelude.{
  Text, lit, ◌==◌, ==_refl, ==_of_ne, ◌≡◌, refl, sym, ◌≢◌, ◌∙◌, false, none, some, arith,
}
use cloud_robotics.Prelude.Int.{pos}
use cloud_robotics.Json.{Json, num, obj, find, or_null}
use cloud_robotics.Exec.{Exec, Result, ok, err, ◌>>◌}
use cloud_robotics.Services.{Services, Stored, entry}
use cloud_robotics.Backend.World.{World}
use cloud_robotics.Backend.Topics.Parsing.{Lacks}
use cloud_robotics.Backend.Registry.{
  key, set_field, touch_last_seen, touch_from, record_telemetry, record_health, record_lidar_scan,
  get_telemetry, get_health, get_lidar_scan, to_stored, or_now,
}
use cloud_robotics.Backend.Registry.Keys.{key_injective}

-- Two fields of a robot have two keys.
pub key-ne : (r f g : Text) → Lacks b':' f → Lacks b':' g → f ≢ g → (key r f == key r g) ≡ false
key-ne r f g hf hg n = ==_of_ne (key r f) (key r g) (λ e. n (key_injective r r f g hf hg e).1)

last_ne :
    (r f : Text) → Lacks b':' f → f ≢ lit "last_seen" → (key r (lit "last_seen") == key r f) ≡ false
last_ne r f l n = key-ne r (lit "last_seen") f (omega arith) l (λ e. n (sym e))

module _ (σ : Services) where
  set_field_self :
      (r f : Text) (v : Stored) (w : World σ)
      → σ.redis.lookup (set_field σ r f v w).1.redis (key r f) ≡ some (entry v none)
  set_field_self r f v w =
      σ.redis.lookup-set (key r f) (key r f) v w.redis ∙ rw (==_refl (key r f)) refl

  set_field-other :
      (r f : Text) (v : Stored) (w : World σ) (k : Text)
      → (key r f == k) ≡ false
      → σ.redis.lookup (set_field σ r f v w).1.redis k ≡ σ.redis.lookup w.redis k
  set_field-other r f v w k h = σ.redis.lookup-set (key r f) k v w.redis ∙ rw h refl

  -- `w'` differs from `w` in no more than the Redis keys of the two fields.
  pub record Writes (w w' : World σ) (r f g : Text) : Type 0 where
    pub others :
        (k : Text)
        → (key r f == k) ≡ false
        → (key r g == k) ≡ false
        → σ.redis.lookup w'.redis k ≡ σ.redis.lookup w.redis k
    pub pg_same : w'.pg ≡ w.pg
    pub published_same : w'.published ≡ w.published
    pub drawn_same : w'.drawn ≡ w.drawn

  touch_last_seen-Writes :
      (r f : Text) (t : Json) (w : World σ)
      → Writes w (touch_last_seen σ r t w).1 r f (lit "last_seen")
  unfolding touch_last_seen
  touch_last_seen-Writes r f t w = go (to_stored (or_now σ t (num (pos w.now)))) refl
    where
      go :
          (s : Result Stored)
          → to_stored (or_now σ t (num (pos w.now))) ≡ s
          → Writes w (touch_last_seen σ r t w).1 r f (lit "last_seen")
      go (ok v) e = record {
        others = λ k h n. rw (e, touch_last_seen) (set_field-other r (lit "last_seen") v w k n);
        pg_same = ground arith;
        published_same = ground arith;
        drawn_same = ground arith;
      }
      go (err x) e = record {
        others = λ k h n. ground arith;
        pg_same = ground arith;
        published_same = ground arith;
        drawn_same = ground arith;
      }

  -- The three handlers that keep a payload, over the field that they write.
  abbrev record_payload : Text → Text → Json → Exec (World σ) (Unit {0})
  record_payload f r p = do set_field σ r f (Stored.payload p); touch_from σ r p

  -- A payload that is no dict stops the handler before the last-seen time.
  touch_from-Writes :
      (r f : Text) (p : Json) (w : World σ) → Writes w (touch_from σ r p w).1 r f (lit "last_seen")
  touch_from-Writes r f (obj fs) w =
      touch_last_seen-Writes r f (or_null (find fs (lit "timestamp"))) w
  touch_from-Writes r f _ w = record {
    others = λ k h n. refl;
    pg_same = refl;
    published_same = refl;
    drawn_same = refl;
  }

  record_payload-Writes :
      (f r : Text) (p : Json) (w : World σ)
      → Writes w (record_payload f r p w).1 r f (lit "last_seen")
  record_payload-Writes f r p w =
      let w₁ = (set_field σ r f (Stored.payload p) w).1 in
      let touched = touch_from-Writes r f p w₁ in
      record {
        others = λ k h n. touched.others k h n ∙ set_field-other r f (Stored.payload p) w k h;
        pg_same = touched.pg_same;
        published_same = touched.published_same;
        drawn_same = touched.drawn_same;
      }

  -- The last-seen key is another key, so the payload stands when the time has been written.
  record_payload-kept :
      (f r : Text) (p : Json) (w : World σ)
      → Lacks b':' f
      → f ≢ lit "last_seen"
      → σ.redis.lookup (record_payload f r p w).1.redis (key r f)
        ≡ some (entry (Stored.payload p) none)
  record_payload-kept f r p w l n =
      touch_kept r f p (set_field σ r f (Stored.payload p) w).1 l n
      ∙ set_field_self r f (Stored.payload p) w
    where
      touch_kept :
          (r f : Text) (p : Json) (w : World σ)
          → Lacks b':' f
          → f ≢ lit "last_seen"
          → σ.redis.lookup (touch_from σ r p w).1.redis (key r f) ≡ σ.redis.lookup w.redis (key r f)
      touch_kept r f (obj fs) w l n =
          (touch_last_seen-Writes r (lit "last_seen") (or_null (find fs (lit "timestamp")))
              w).others
            (key r f) (last_ne r f l n) (last_ne r f l n)
      touch_kept r f _ w l n = refl

  -- Whatever the payload, telemetry, health and lidar handlers store it: the reader of that kind
  -- answers it, and of all other state only the robot's last-seen time may change.
  pub get-record :
      (r : Text) (p : Json) (w : World σ)
      → let t = (record_telemetry σ r p w).1 in
        let h = (record_health σ r p w).1 in
        let l = (record_lidar_scan σ r p w).1 in
        (get_telemetry σ r t ≡ (ok p, t))
        × Writes w t r (lit "telemetry") (lit "last_seen")
        × (get_health σ r h ≡ (ok p, h))
        × Writes w h r (lit "health") (lit "last_seen")
        × (get_lidar_scan σ r l ≡ (ok p, l))
        × Writes w l r (lit "lidar") (lit "last_seen")
  unfolding record_telemetry record_health record_lidar_scan get_telemetry get_health get_lidar_scan
  get-record r p w = (
    rw (record_payload-kept (lit "telemetry") r p w (omega arith) (ground arith)) refl,
    record_payload-Writes (lit "telemetry") r p w,
    rw (record_payload-kept (lit "health") r p w (omega arith) (ground arith)) refl,
    record_payload-Writes (lit "health") r p w,
    rw (record_payload-kept (lit "lidar") r p w (omega arith) (ground arith)) refl,
    record_payload-Writes (lit "lidar") r p w,
  )
