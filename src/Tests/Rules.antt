-- ===== src/Tests/Rules.antt =====
-- Permissions, limits, names and the HTTP subset at concrete inputs.
use back_channel.Prelude.{
  text_eq, ◌+◌, ◌-◌, ◌*◌, ◌%◌, ◌≤◌, ◌≡◌, ◌≢◌, refl, true, false, not, some, [], ◌∷◌, ◌++◌, arith,
  All, list_eq, if◌then◌else◌,
}
use back_channel.Prelude.Int.{pos}
use back_channel.Prelude.Dict.{lookup}
use back_channel.Prelude.Text.{str}
use back_channel.Prelude.Decimal.{show_nat}
use back_channel.State.{User, ServerRole}
use back_channel.Perms.{
  Act, can, can_send, can_target, can_server_target, can_server_act, is_server_owner, rank_in,
  srv_rank, srv_owner, srv_admin,
}
use back_channel.Perms.Matrix.{can_send-eq-can}
use back_channel.Perms.Targets.{can_target_protects, can_server_target_protects}
use back_channel.Limits.Bucket.{
  Bucket, Limiter, Key, key_eq, new_bucket, new_limiter, take, token, exhausted, per_second,
  tokens_of, key_same,
}
use back_channel.Limits.Bucket.Conservation.{serve, serve_bound, Requests}
use back_channel.Limits.Bucket.Idle.{take-new_bucket, exhausted-take}
use back_channel.Limits.Expire.{parse_expire, fmt_expire}
use back_channel.Limits.Expire.RoundTrip.{parse_expire-fmt_expire, parse_expire_overflow}
use back_channel.Http.Escape.{escape, unescape}
use back_channel.Http.Escape.RoundTrip.{unescape-escape, escape_safe, IsUrlByte}
use back_channel.Names.{sanitize_name}
use back_channel.Names.Laws.{IsSafe, sanitize_name-IsSafe}
use back_channel.Tests.Messages.{ada, bob, design}

can_send-eq-can_example :
    can_send 2 (record design { readonly = true })
    ≡ (if true then can 2 Act.kick else can 2 Act.send)
can_send-eq-can_example = can_send-eq-can 2 (record design { readonly = true })

can_target_protects_example :
    (can_target (rank_in bob design) (rank_in ada design) ≡ false)
    × (srv_rank bob ≢ srv_owner)
    × (srv_rank bob ≡ srv_admin → srv_rank ada ≡ srv_owner)
unfolding lookup
can_target_protects_example = can_target_protects ada bob design (unfold can_target rank_in in refl)

abbrev root : User
root = record ada { id = pos 3; role = ServerRole.owner }

can_server_target_protects_example :
    (can_server_target ada root ≡ false)
    × (can_server_target root root ≡ false)
    × (is_server_owner ada ≡ false)
    × (can_server_act ada ≡ true → is_server_owner root ≡ true)
can_server_target_protects_example =
    can_server_target_protects root ada (unfold can_server_target srv_rank in refl)

-- ---- limits ----

abbrev bucket : Bucket
bucket = new_bucket (per_second 5000) (tokens_of 20000) 100

abbrev requests : Requests
requests = (token, 100) ∷ (token, 150) ∷ []

serve_bound_example :
    let (granted, b') = serve bucket requests in
    (granted ≤ bucket.burst + (b'.last - bucket.last) * bucket.rate) × (b'.tokens ≤ bucket.burst)
serve_bound_example = serve_bound bucket requests (omega arith) (omega arith, (omega arith, tt))

take-new_bucket_example :
    take bucket token 9_000_000
    ≡ take (new_bucket bucket.rate bucket.burst 9_000_000) token 9_000_000
take-new_bucket_example = take-new_bucket bucket token 9_000_000 (omega arith) (omega arith)

abbrev limiter : Limiter
limiter = record (new_limiter (per_second 83) (tokens_of 5000)) {
  buckets = (Key.login (str "ada"), bucket) ∷ [];
}

exhausted-take_example :
    exhausted limiter (Key.login (str "ada")) 200 ≡ not (take bucket token 200).0
unfolding lookup key_same text_eq str
exhausted-take_example = exhausted-take limiter (Key.login (str "ada")) 200 refl (omega arith)

parse_expire-fmt_expire_example :
    parse_expire (fmt_expire (pos 90_061)) ≡ some (pos (90_061 - 90_061 % 60))
parse_expire-fmt_expire_example = parse_expire-fmt_expire 90_061 (omega arith) (omega arith)

parse_expire_overflow_example :
    parse_expire (show_nat 20_000_000_000_000 ++ b'w' ∷ []) ≡ some (pos 60)
parse_expire_overflow_example =
    parse_expire_overflow 20_000_000_000_000 (omega arith) (omega arith) (omega arith)

-- ---- names and the HTTP subset ----

unescape-escape_example : unescape (escape (37 ∷ 200 ∷ [])) ≡ 37 ∷ 200 ∷ []
unescape-escape_example = unescape-escape (37 ∷ 200 ∷ []) (omega arith, (omega arith, tt))

escape_safe_example : All IsUrlByte (escape (37 ∷ 200 ∷ []))
escape_safe_example = escape_safe (37 ∷ 200 ∷ []) (omega arith, (omega arith, tt))

sanitize_name-IsSafe_example : IsSafe (sanitize_name (str "../../etc/passwd"))
sanitize_name-IsSafe_example = sanitize_name-IsSafe (str "../../etc/passwd")
