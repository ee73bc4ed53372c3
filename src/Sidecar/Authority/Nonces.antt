-- ===== src/Sidecar/Authority/Nonces.antt =====
-- sidecar/auth_authority.mjs: `seenNonces` and its file. The file is the object that
-- `persistNonces` writes, or nothing where there is no file or it is no JSON object; its keys are
-- distinct, so the order in which they are read does not matter. A file that is there can be read,
-- and nothing else writes it.
use aegisone_core.Prelude.{
  ℕ, ◌+◌, Str, Bool, true, false, ◌&&◌, ◌||◌, List, [], ◌∷◌, Option, none, some, if◌then◌else◌, ltb,
  leb, ◌==◌, length, all, any, str_eq, lookup, insert,
}
use aegisone_core.Json.Lexer.{is_digit}

abbrev is_nonce_unit : ℕ → Bool
is_nonce_unit c =
    (leb b'A' c && leb c b'Z') || (leb b'a' c && leb c b'z') || is_digit c || c == b'_' || c == b'-'

-- `NONCE_PATTERN.test`.
unfoldable pub is_nonce : Str → Bool
is_nonce s = leb 24 (length s) && leb (length s) 128 && all is_nonce_unit s

pub record NonceStore : Type 0 where
  pub seen : List (Str × ℕ)
  pub file : Option (List (Str × ℕ))

-- What comes of a `writeFileSync`: it truncates the file and then writes the text. It can fail
-- before it opens the file, where only a part of the text is in it, which is then no JSON, or when
-- all is written.
pub data Write : Type 0 where
  written untouched cut_off unclosed : Write

-- The file after the write, and whether no error is thrown.
abbrev pub write_file :
    Write → List (Str × ℕ) → Option (List (Str × ℕ)) → Option (List (Str × ℕ)) × Bool
write_file written new old = (some new, true)
write_file untouched new old = (old, false)
write_file cut_off new old = (none, false)
write_file unclosed new old = (some new, false)

-- The entries that are not expired.
unfoldable pub unexpired : ℕ → List (Str × ℕ) → List (Str × ℕ)
unexpired now [] = []
unexpired now ((k, e) ∷ m) = if ltb now e then (k, e) ∷ unexpired now m else unexpired now m

unfoldable pub read_entries : ℕ → List (Str × ℕ) → List (Str × ℕ) → List (Str × ℕ)
read_entries now [] seen = seen
read_entries now ((k, e) ∷ m) seen =
    let rest = read_entries now m seen in if is_nonce k && ltb now e then insert k e rest else rest

-- `loadPersistentNonces`.
unfoldable pub load_persistent_nonces : ℕ → NonceStore → NonceStore
load_persistent_nonces now s = elim s.file [
  | none ↦ s
  | some m ↦ record s { seen = read_entries now m s.seen }
]

-- `persistNonces`.
unfoldable pub persist_nonces : ℕ → Write → NonceStore → NonceStore × Bool
persist_nonces now w s =
    let (file, done) = write_file w (unexpired now s.seen) s.file in
    (record s { file = file }, done)

-- `cleanupNonces`.
unfoldable pub cleanup_nonces : ℕ → Write → NonceStore → NonceStore
cleanup_nonces now w s =
    let s' = record s { seen = unexpired now s.seen } in
    if any (λ e. leb e.1 now) s.seen then (persist_nonces now w s').0 else s'

abbrev pub remove : Str → List (Str × ℕ) → List (Str × ℕ)
remove k [] = []
remove k ((j, e) ∷ m) = if str_eq j k then remove k m else (j, e) ∷ remove k m

abbrev pub is_seen : Option ℕ → Bool
is_seen none = false
is_seen (some e) = true

-- What is added to the time of a reservation.
abbrev pub nonce_lifetime : ℕ
nonce_lifetime = 150000

-- `reserveNonce` of a nonce that is not there.
unfoldable pub add_nonce : Str → ℕ → Write → NonceStore → NonceStore × Bool
add_nonce nonce now w s =
    let (s', done) =
      persist_nonces now w (record s { seen = insert nonce (now + nonce_lifetime) s.seen }) in
    if done then (s', true) else (record s' { seen = remove nonce s'.seen }, false)

-- `reserveNonce`.
unfoldable pub reserve_nonce : Str → ℕ → Write → Write → NonceStore → NonceStore × Bool
reserve_nonce nonce now cleanup_writes reserve_writes s =
    let s' = cleanup_nonces now cleanup_writes (load_persistent_nonces now s) in
    if is_seen (lookup nonce s'.seen) then (s', false) else add_nonce nonce now reserve_writes s'
