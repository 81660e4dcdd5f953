-- ===== src/Proxy/Recorder.antt =====
-- cmd/proxy/cache.go, `cacheRecorder`: the writer that stamps X-Cache and keeps a storable body while
-- it streams to the client. The writer below it is the headers
-- it holds, the codes it was given and the bytes it was given; its errors are its own.
pub mod Keeping
pub mod Whole
use proxy_manager.Prelude.{
  ℕ, zero, suc, ◌+◌, ◌-◌, ◌/◌, ◌^◌, Bool, true, false, not, ◌&&◌, ◌||◌, List, [], ◌∷◌, ◌++◌, Option,
  none, some, Bytes, bytes_eq, nat_eq, codes, ◌==◌, ltb, if◌then◌else◌, length,
}
use proxy_manager.Prelude.Strings.{Header, header_get, header_set, parse_int64}
use proxy_manager.Proxy.Cache.{CacheEntry, cache_max_body}
use proxy_manager.Proxy.Cacheable.{cache_response_storable, clone_storable_header}

pub record Writer : Type 0 where
  pub head : Header
  pub statuses : List ℕ
  pub sent : Bytes

abbrev pub new_writer : Header → Writer
new_writer h = record { head = h; statuses = []; sent = [] }

pub data CacheMode : Type 0 where
  miss : CacheMode
  bypass : CacheMode

abbrev pub mode_text : CacheMode → Bytes
mode_text miss = codes "MISS"
mode_text bypass = codes "BYPASS"

pub record CacheRecorder : Type 0 where
  pub mode : CacheMode
  pub recording : Bool
  pub wrote_header : Bool
  pub status : ℕ
  pub storable : Bool
  pub header : Header
  pub buf : Bytes
  pub overflow : Bool
  pub declared_len : Option ℕ

unfoldable pub new_recorder : CacheMode → Bool → CacheRecorder
new_recorder mode recording = record {
  mode = mode;
  recording = recording;
  wrote_header = false;
  status = 0;
  storable = false;
  header = [];
  buf = [];
  overflow = false;
  declared_len = none;
}

-- The length that Content-Length declares: `none` for Go's -1 and for any number below 0, which
-- entry takes alike.
unfoldable pub declared_length : Bytes → Option ℕ
declared_length cl = parse_int64 cl

unfoldable pub take_header : ℕ → Header → CacheRecorder → CacheRecorder
take_header code h w =
    let keeps = code == 200 && cache_response_storable h in
    let w' : CacheRecorder = record w { storable = keeps } in
    if keeps
    then record w' {
      header = clone_storable_header h;
      declared_len = declared_length (header_get (codes "Content-Length") h);
    }
    else w'

unfoldable pub write_header : ℕ → CacheRecorder → Writer → CacheRecorder × Writer
write_header code w out =
    if ltb code 200 || w.wrote_header
    then (w, record out { statuses = out.statuses ++ code ∷ [] })
    else (let h = header_set (codes "X-Cache") (mode_text w.mode) out.head in
        let w' : CacheRecorder = record w { wrote_header = true; status = code } in
        (
          if w.recording then take_header code h w' else w',
          record out { head = h; statuses = out.statuses ++ code ∷ [] },
        ))

unfoldable pub record_bytes : Bytes → CacheRecorder → CacheRecorder
record_bytes p w =
    if w.storable && not w.overflow
    then if ltb cache_max_body (length w.buf + length p)
      then record w { overflow = true; buf = [] }
      else record w { buf = w.buf ++ p }
    else w

-- `if !w.wroteHeader { w.WriteHeader(http.StatusOK) }`
unfoldable pub with_header : Bool → CacheRecorder → Writer → CacheRecorder × Writer
with_header true w out = (w, out)
with_header false w out = write_header 200 w out

unfoldable pub write : Bytes → CacheRecorder → Writer → CacheRecorder × Writer
write p w out =
    let (w', out') = with_header w.wrote_header w out in
    (record_bytes p w', record out' { sent = out'.sent ++ p })

-- `len(w.buf) != w.declaredLen`, where a length was declared.
abbrev pub is_short : ℕ → Option ℕ → Bool
is_short n none = false
is_short n (some m) = not (n == m)

-- The entry to store, whose time the caller sets.
unfoldable pub entry : ℕ → CacheRecorder → Option CacheEntry
entry stored_at w =
    if not w.recording || not w.wrote_header || not w.storable || w.overflow
    then none
    else if is_short (length w.buf) w.declared_len
    then none
    else some (record { status = w.status; header = w.header; body = w.buf; stored_at = stored_at })
