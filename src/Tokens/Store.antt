-- ===== src/Tokens/Store.antt =====
-- What the token service uses and does not implement: a Redis server, JSON, and random bytes. A
-- world `W` holds the server's keys and the source of randomness.
use holvit_backend.Prelude.{ℕ, String, str_eq, ◌≡◌, Option, none, some, if◌then◌else◌}

-- The commands `SET key value EX seconds`, `GET key` and `GETDEL key`.
pub record Redis (W : Type 0) : Type 0 where
  pub set : String → String → ℕ → W → W
  pub get : String → W → Option String
  pub get_del : String → W → Option String × W

-- What Redis documents of them, at one time: nothing is said of keys that expire in between.
pub record IsRedis {W : Type 0} (r : Redis W) : Type 0 where
  pub get-set :
      (k j v : String) (seconds : ℕ) (w : W)
      → r.get j (r.set k v seconds w) ≡ (if str_eq k j then some v else r.get j w)
  pub get_del_value : (k : String) (w : W) → (r.get_del k w).0 ≡ r.get k w
  pub get-get_del :
      (k j : String) (w : W) → r.get j (r.get_del k w).1 ≡ (if str_eq k j then none else r.get j w)

-- `json.Marshal` and `json.Unmarshal` at one type; the latter fails on some texts.
pub record Json (A : Type 0) : Type 0 where
  pub marshal : A → String
  pub unmarshal : String → Option A

pub record IsJson {A : Type 0} (j : Json A) : Type 0 where
  pub unmarshal-marshal : (a : A) → j.unmarshal (j.marshal a) ≡ some a
