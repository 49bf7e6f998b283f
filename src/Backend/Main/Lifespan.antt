-- ===== src/Backend/Main/Lifespan.antt =====
-- cloud-container/backend/app/main.py: what `lifespan` opens before the application serves, and closes
-- after. Whether each call returns is an argument; there is no `finally`.
use cloud_robotics.Prelude.{Bool, true, false, List, [], ◌∷◌, ◌≡◌, refl}
use cloud_robotics.Exec.{Exec, ◌>>◌}
use cloud_robotics.Calls.{perform}

pub data Call : Type 0 where
  create_pool create_client connect serve disconnect close_client close_pool : Call

pub record Returns : Type 0 where
  pub pool_created : Bool
  pub connect_returns : Bool
  pub disconnect_returns : Bool
  pub client_closed : Bool
  pub pool_closed : Bool

-- Up to the `yield`, and from it on.
unfoldable pub start : Returns → Exec (List Call) (Unit {0})
start fates = do
  perform create_pool fates.pool_created
  perform create_client true
  perform connect fates.connect_returns

unfoldable pub shut_down : Returns → Exec (List Call) (Unit {0})
shut_down fates = do
  perform disconnect fates.disconnect_returns
  perform close_client fates.client_closed
  perform close_pool fates.pool_closed

unfoldable pub lifespan : Returns → Exec (List Call) (Unit {0})
unfolding start shut_down
lifespan fates = do start fates; perform serve true; shut_down fates

-- What is closed behind the disconnection.
abbrev pub closed : Bool → Bool → List Call
closed true true = close_client ∷ close_pool ∷ []
closed true false = close_client ∷ []
closed false _ = []

-- Where the calls before it return, a disconnection that raises leaves the client of Redis and the
-- pool of Postgres open; one that returns lets the client be
-- closed, and the pool after it if that returns.
pub lifespan-closes :
    (disconnect_returns client_closed pool_closed : Bool)
    → (lifespan
        (record {
          pool_created = true;
          connect_returns = true;
          disconnect_returns = disconnect_returns;
          client_closed = client_closed;
          pool_closed = pool_closed;
        })
        []).1
      ≡ create_pool
        ∷ create_client
        ∷ connect
        ∷ serve
        ∷ disconnect
        ∷ closed disconnect_returns client_closed
unfolding lifespan
lifespan-closes true true p = refl
lifespan-closes true false p = refl
lifespan-closes false c p = refl
