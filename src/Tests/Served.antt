-- ===== src/Tests/Served.antt =====
-- The theorems on the server, with a concrete digest and encoding in place of the libraries.
use moodeng_sql.Prelude.{
  ℕ, zero, suc, Bool, true, false, ◌+◌, ◌*◌, ◌-◌, ◌/◌, ◌%◌, ◌≡◌, ◌≢◌, refl, ap, Option, none, some,
  List, [], ◌∷◌, ◌++◌, ◌⊎◌, inl, inr, arith,
}
use moodeng_sql.Prelude.Lists.{length, All}
use moodeng_sql.Prelude.Bytes.{Bytes, to_be_bytes, read_exact, from_be_bytes, from_be_acc}
use moodeng_sql.Server.Text.{ascii, bytes_key}
use moodeng_sql.Server.Scram.{
  Crypto, Checked, ScramCredentials, from_password_with_salt, to_secret_string, parse, auth_message,
}
use moodeng_sql.Server.Scram.Laws.{
  IsByte, IsBase64, IsDocumented, IsValid, from_password_with_salt-IsValid, parse-to_secret_string,
  attr,
}
use moodeng_sql.Server.Scram.Derived.{derived}
use moodeng_sql.Server.Scram.Client.{exchange, exchange_lem, first, without_proof}
use moodeng_sql.Server.Wire.{Host, Wire, done, unfinished, read_i32, receive, write_all}
use moodeng_sql.Server.Auth.{
  AuthConfig, TlsSettings, load_server_config, negotiate_stream, accept_tls,
}
use moodeng_sql.Server.Auth.Shown.{Shown}
use moodeng_sql.Server.Auth.Encrypted.{negotiate_stream-true}
use moodeng_sql.Server.Substitute.{substitute_params, summarize_sql_panics}
use moodeng_sql.Server.Substitute.Spliced.{substitute_params_raw}
use moodeng_sql.Server.Session.{Engine, World, run_session, handle_connection, round, new}
use moodeng_sql.Server.Session.Locked.{IsPermitted, run_session-Shown}
use moodeng_sql.Server.Session.Ended.{handle_connection_done}
use moodeng_sql.Server.Session.Messages.{
  Message, simple_query, parse_as, bind_to, execute, sync, terminate, encode, IsSendable,
}
use moodeng_sql.Server.Session.Answered.{at}
use moodeng_sql.Server.Session.Replies.{sent, answer, fails, status_of, ready_for_query}
use moodeng_sql.Server.Session.Replied.{round_answered}

-- The first bytes of a text, with zeros behind them.
abbrev padded : ℕ → Bytes → Bytes
padded zero s = []
padded (suc n) [] = 0 ∷ padded n []
padded (suc n) (b ∷ s) = b % 256 ∷ padded n s

padded_long : (n : ℕ) (s : Bytes) → length (padded n s) ≡ n
padded_long zero s = refl
padded_long (suc n) [] = omega (arith, padded_long n [])
padded_long (suc n) (b ∷ s) = omega (arith, padded_long n s)

padded-IsByte : (n : ℕ) (s : Bytes) → All IsByte (padded n s)
padded-IsByte zero s = tt
padded-IsByte (suc n) [] = (omega arith, padded-IsByte n [])
padded-IsByte (suc n) (b ∷ s) = (omega arith, padded-IsByte n s)

-- Two letters for a byte.
abbrev letters : Bytes → Bytes
letters [] = []
letters (b ∷ s) = (97 + b / 16) ∷ (97 + b % 16) ∷ letters s

abbrev read_letters : Bytes → Option Bytes
read_letters [] = some []
read_letters (a ∷ []) = none
read_letters (a ∷ b ∷ s) = elim (read_letters s) [
  | none ↦ none
  | some t ↦ some (((a - 97) * 16 + (b - 97)) ∷ t)
]

abbrev of_letters : Bytes → Checked Bytes
of_letters s = elim (read_letters s) [ none ↦ inl (ascii "odd") | some t ↦ inr t ]

abbrev crypto : Crypto
crypto = record {
  hmac_sha256_bytes = λ key text. padded 32 (key ++ text);
  sha256 = λ text. padded 32 (1 ∷ text);
  encode = letters;
  decode = of_letters;
}

letters-IsBase64 : (s : Bytes) → All IsByte s → All IsBase64 (letters s)
letters-IsBase64 [] h = tt
letters-IsBase64 (b ∷ s) h = (
  inr (inr (inr (inr (omega (arith, h.0), omega (arith, h.0))))),
  (inr (inr (inr (inr (omega arith, omega arith)))), letters-IsBase64 s h.1),
)

read_letters_lem : (s : Bytes) → All IsByte s → read_letters (letters s) ≡ some s
read_letters_lem [] h = refl
read_letters_lem (b ∷ s) h = rw (read_letters_lem s h.1) (ap (λ x. some (x ∷ s)) (omega arith))

crypto-IsDocumented : IsDocumented crypto
crypto-IsDocumented = record {
  hmac_key = λ key text. (padded_long 32 (key ++ text), padded-IsByte 32 (key ++ text));
  sha256_key = λ text. (padded_long 32 (1 ∷ text), padded-IsByte 32 (1 ∷ text));
  encode_letters = letters-IsBase64;
  decode-encode = λ s h.
      ap (λ o. elim o as (λ _. Checked Bytes) [ none ↦ inl (ascii "odd") | some t ↦ inr t ])
        (read_letters_lem s h);
}

abbrev host : Host
host = record {
  from_utf8 = λ s. inr s;
  from_utf8_lossy = λ s. s;
  hash_password = λ s. 7 ∷ s;
  verify_password = λ password hash. true;
  accept = λ s. some s;
}

-- The statements that were executed, and whether a transaction is open.
abbrev engine : Engine (List Bytes) Bool
engine = record {
  new_session = false;
  is_active = λ s. s;
  execute_session = λ db s sql. (
    inr record {
      columns = ascii "n" ∷ [];
      rows = (some (ascii "1") ∷ []) ∷ [];
      rows_affected = 0;
      message = none;
    },
    s,
    sql ∷ db,
  );
}

abbrev creds : ScramCredentials
creds = from_password_with_salt crypto (ascii "pw") (1 ∷ 2 ∷ []) 3

abbrev auth : AuthConfig
auth = record {
  password_hash = none;
  scram_credentials = some creds;
  require_tls_for_password = false;
}

abbrev world : Bytes → World (List Bytes) Bool
world input = record { wire = record { input = input; output = [] }; conn = new engine; db = [] }

abbrev startup : Bytes
startup = 0 ∷ 0 ∷ 0 ∷ 8 ∷ 0 ∷ 3 ∷ 0 ∷ 0 ∷ []

exchange_lem_example :
    exchange crypto creds (9 ∷ 8 ∷ []) (ascii "pw") (ascii "ann") (ascii "xyz")
    ≡ inr (
        ascii "v="
        ++ letters (
            padded 32 (
              padded 32 (derived crypto (ascii "pw") (1 ∷ 2 ∷ []) 3 ++ ascii "Server Key")
              ++ auth_message crypto
                  (attr b'n' (ascii "ann") ++ b',' ∷ attr b'r' (ascii "xyz"))
                  (first crypto creds (9 ∷ 8 ∷ []) (ascii "xyz"))
                  (without_proof crypto (ascii "xyz" ++ letters (9 ∷ 8 ∷ []))))))
exchange_lem_example =
    exchange_lem crypto crypto-IsDocumented (ascii "pw") (1 ∷ 2 ∷ []) 3 (9 ∷ 8 ∷ []) (ascii "ann")
      (ascii "xyz") (omega arith) (omega arith) (omega arith) (omega arith) (omega arith)
      (omega arith)

creds-IsValid : IsValid creds
creds-IsValid =
    from_password_with_salt-IsValid crypto-IsDocumented (ascii "pw") (1 ∷ 2 ∷ []) 3 (omega arith)
      (omega arith)

parse-to_secret_string_example : parse crypto (to_secret_string crypto creds) ≡ inr creds
parse-to_secret_string_example =
    parse-to_secret_string crypto crypto-IsDocumented creds creds-IsValid

run_session-Shown_example :
    ((run_session engine host crypto (9 ∷ []) auth false (world (startup ++ ascii "p"))).1.db ≡ [])
    ⊎ (IsPermitted auth false × Shown crypto host (9 ∷ []) auth (startup ++ ascii "p"))
run_session-Shown_example =
    run_session-Shown crypto host (9 ∷ []) auth engine false (world (startup ++ ascii "p")) refl

abbrev asking : TlsSettings
asking = record { cert_path = some (ascii "c"); key_path = some (ascii "k"); require_tls = true }

abbrev load : (cert_path key_path : Bytes) → Checked Bytes
load cert_path key_path = inr cert_path

abbrev secured : Wire
secured = record { input = startup; output = ascii "S" }

abbrev ssl_request : Wire
ssl_request = record { input = 0 ∷ 0 ∷ 0 ∷ 8 ∷ 4 ∷ 210 ∷ 22 ∷ 47 ∷ startup; output = [] }

loaded : load_server_config load asking ≡ inr (some (ascii "c"))
unfolding load_server_config
loaded = refl

negotiated : negotiate_stream host asking (some (ascii "c")) ssl_request ≡ (done true, secured)
unfolding negotiate_stream read_i32 receive read_exact from_be_bytes from_be_acc write_all
    accept_tls
negotiated = refl

negotiate_stream-true_example : ◌≡◌ {A = Bool} true true
negotiate_stream-true_example =
    negotiate_stream-true host load asking (some (ascii "c")) ssl_request refl loaded negotiated

handle_connection_done_example :
    (handle_connection engine host crypto (9 ∷ []) auth asking (some (ascii "c")) (world startup)).0
    ≢ unfinished
handle_connection_done_example =
    handle_connection_done engine host crypto (9 ∷ []) auth asking (some (ascii "c"))
      (world startup)

abbrev messages : List Message
messages =
    simple_query (ascii "q")
    ∷ parse_as (ascii "s") (ascii "i $1")
    ∷ bind_to (ascii "s") (some (ascii "7") ∷ none ∷ [])
    ∷ execute
    ∷ sync
    ∷ terminate
    ∷ []

sendable : All (IsSendable host) messages
unfolding to_be_bytes
sendable = (
  ((omega arith, refl), omega arith),
  (
    (((omega arith, refl), (omega arith, refl)), omega arith),
    (
      ((refl, (omega arith, refl), omega arith, ((omega arith, refl), (tt, tt))), omega arith),
      ((tt, omega arith), ((tt, omega arith), ((tt, omega arith), tt))),
    ),
  ),
)

query_plain : summarize_sql_panics (ascii "q") ≡ false
unfolding summarize_sql_panics
query_plain = refl

round_answered_example :
    let x = engine.execute_session (world []).db (world []).conn.session (ascii "q") in
    round engine host
      (at engine host (encode (simple_query (ascii "q")) ++ ascii "rest") (world []))
    ≡ (
      done true,
      record {
        wire = record {
          input = ascii "rest";
          output =
              ((world []).wire.output ++ sent (answer x.0))
              ++ sent (ready_for_query (status_of (fails x.0) (engine.is_active x.1)) ∷ []);
        };
        conn = record (world []).conn { session = x.1; in_error = fails x.0 };
        db = x.2;
      },
    )
round_answered_example =
    round_answered engine host b'q' [] (ascii "rest") (world []) sendable.0 query_plain

substitute_params_raw_example :
    substitute_params (ascii "n=" ++ (ascii "$1" ++ ascii ";")) (some (ascii "1 OR 1=1") ∷ [])
    ≡ ascii "n=" ++ (ascii "1 OR 1=1" ++ ascii ";")
substitute_params_raw_example =
    substitute_params_raw (ascii "n=") (ascii ";") (ascii "1 OR 1=1") (omega arith) (omega arith)
      refl
