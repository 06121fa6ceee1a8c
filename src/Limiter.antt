-- ===== src/Limiter.antt =====
-- internal/proxy/db/types.go: the limit on concurrent connections, the ports of a target and the
-- session record of a database connection.
use turjmp.Prelude.{
  ℕ, ◌+◌, ◌-◌, ◌≤◌, ◌≡◌, refl, inl, inr, Bool, true, false, List, [], ◌∷◌, arith, ltb, ◌==◌,
  if◌then◌else◌, Bool-cases, Text, codes, text_eq,
}
use turjmp.Strings.{trim_space, to_lower}

-- The buffered channel: how many it holds, and how many it can hold.
pub record Limiter : Type 0 where
  pub held : ℕ
  pub capacity : ℕ

-- `n` is 0 for any number that is not positive.
unfoldable pub new_limiter : ℕ → Limiter
new_limiter n = record { held = 0; capacity = if n == 0 then 1 else n }

unfoldable pub acquire : Limiter → Limiter × Bool
acquire l = if ltb l.held l.capacity then (record l { held = l.held + 1 }, true) else (l, false)

unfoldable pub release : Limiter → Limiter
release l = record l { held = l.held - 1 }

unfoldable pub normalize_db_protocol : Text → Text
normalize_db_protocol protocol =
    let p = to_lower (trim_space protocol) in
    if text_eq p (codes "postgresql") then codes "postgres" else p

unfoldable pub protocol_default_port : Text → ℕ
unfolding normalize_db_protocol
protocol_default_port protocol =
    let p = normalize_db_protocol protocol in
    if text_eq p (codes "mysql") then 3306 else if text_eq p (codes "postgres") then 5432 else 0

pub record TargetConfig : Type 0 where
  pub address : Text
  pub port : ℕ
  pub protocol : Text

-- A port that is not positive is 0.
unfoldable pub target_port : TargetConfig → ℕ
unfolding protocol_default_port
target_port t = if ltb 0 t.port then t.port else protocol_default_port t.protocol

pub record AuthResult : Type 0 where
  pub user_id : ℕ
  pub asset_id : ℕ
  pub account_id : ℕ
  pub connect_method : Text

pub record SessionInfo : Type 0 where
  pub user_id : ℕ
  pub asset_id : ℕ
  pub account_id : ℕ
  pub protocol : Text
  pub kind : Text
  pub connect_method : Text
  pub remote_addr : Text

unfoldable pub db_session_info : AuthResult → Text → Text → Text → SessionInfo
db_session_info auth protocol native_connect_method remote_addr =
    let web = text_eq auth.connect_method (codes "web_db") in
    record {
      user_id = auth.user_id;
      asset_id = auth.asset_id;
      account_id = auth.account_id;
      protocol = protocol;
      kind = if web then codes "db_terminal" else codes "db_proxy";
      connect_method = if web then codes "web_db" else native_connect_method;
      remote_addr = remote_addr;
    }

-- The connections that come and go: each call of acquire, and the release of one that was let in.
pub data Event : Type 0 where
  enter leave : Event

-- The limiter and the number of connections let in, after a sequence of events; a connection leaves
-- only if there is one.
unfoldable pub run : Limiter → ℕ → List Event → Limiter × ℕ
unfolding acquire release
run l inside [] = (l, inside)
run l inside (Event.enter ∷ es) =
    run ((acquire l).0) (if (acquire l).1 then inside + 1 else inside) es
run l inside (Event.leave ∷ es) = run (if inside == 0 then l else release l) (inside - 1) es

run-held :
    (l : Limiter) (inside : ℕ) (es : List Event)
    → l.held ≡ inside
    → inside ≤ l.capacity
    → (((run l inside es).0).held ≡ (run l inside es).1) × ((run l inside es).1 ≤ l.capacity)
unfolding run acquire release
run-held l inside [] h k = (h, k)
run-held l inside (Event.enter ∷ es) h k = elim (Bool-cases (ltb l.held l.capacity)) [
  | inl e ↦
      rw (e, run)
        (run-held (record l { held = l.held + 1 }) (inside + 1) es (ground (arith, h))
          (ground (arith, h, e)))
  | inr e ↦ rw (e, run) (run-held l inside es h k)
]
run-held l inside (Event.leave ∷ es) h k = elim (Bool-cases (inside == 0)) [
  | inl e ↦
      rw (e, run) (run-held l (inside - 1) es (ground (arith, h, e)) (ground (arith, h, k, e)))
  | inr e ↦
      rw (e, run)
        (run-held (record l { held = l.held - 1 }) (inside - 1) es (ground (arith, h))
          (omega (arith, k)))
]

-- Whatever the order in which connections come and go, those inside never exceed the limit, or one if
-- the limit is not positive, and the limiter counts exactly those inside.
pub run_bounded :
    (n : ℕ) (es : List Event)
    → (((run (new_limiter n) 0 es).0).held ≡ (run (new_limiter n) 0 es).1)
      × ((run (new_limiter n) 0 es).1 ≤ (if n == 0 then 1 else n))
unfolding new_limiter
run_bounded n es = run-held (new_limiter n) 0 es refl (omega arith)
