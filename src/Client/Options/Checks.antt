-- ===== src/Client/Options/Checks.antt =====
-- What `parse_options` accepts.
use concurrent_tcp_file_tran.Base.{
  false-ne-true, true-ne-false, ℕ, ◌%◌, ◌^◌, ◌≤◌, [], ◌∷◌, List, true, false, Option, none, some,
  Bytes, codes, same, not, ◌||◌, ◌≡◌, ◌≢◌, refl, subst, arith, Bool-cases, Option-cases, inl, inr,
}
use concurrent_tcp_file_tran.Number.{parse_uint64, max_uint16}
use concurrent_tcp_file_tran.FileName.{is_safe_filename}
use concurrent_tcp_file_tran.Server.Event.{is_empty}
use concurrent_tcp_file_tran.Client.Get.{Options, Command, get, put}
use concurrent_tcp_file_tran.Client.Options.{
  client_port, Seen, max_delay, set_port, set_delay, take_option, take_options, all_seen, unseen,
  parse_options,
}

-- What the flags say of the options read so far.
record Sound (seen : Seen) : Type 0 where
  host : seen.saw_host ≡ true → seen.options.host ≢ []
  port : seen.saw_port ≡ true → (1 ≤ seen.options.port) × (seen.options.port ≤ max_uint16)
  remote : seen.saw_remote ≡ true → is_safe_filename seen.options.remote_name ≡ true
  local : seen.saw_local ≡ true → seen.options.local_path ≢ []
  delay : seen.options.delay_ms ≤ max_delay

pub record Valid (options : Options) : Type 0 where
  pub host : options.host ≢ []
  pub port : (1 ≤ options.port) × (options.port ≤ max_uint16)
  pub remote : is_safe_filename options.remote_name ≡ true
  pub local : options.local_path ≢ []
  pub delay : options.delay_ms ≤ max_delay

not_empty : (value : Bytes) → is_empty value ≡ false → value ≢ []
not_empty [] h = absurd (true-ne-false h)
not_empty (b ∷ value) h = λ e. cc

client_port-bound : (text : Bytes) (n : ℕ) → client_port text ≡ some n → (1 ≤ n) × (n ≤ max_uint16)
unfolding client_port
client_port-bound text n e = elim (Option-cases (parse_uint64 text)) [
  | inl none' ↦ absurd (true-ne-false (ground arith))
  | inr (m, parsed) ↦ ground arith
]

set_port-Sound :
    (seen next : Seen) (text : Bytes)
    → Sound seen
    → set_port seen (client_port text) ≡ some next
    → Sound next
unfolding set_port
set_port-Sound seen next text v e = elim (Option-cases (client_port text)) [
  | inl none' ↦ absurd (true-ne-false (ground arith))
  | inr (n, read) ↦
      let bound = client_port-bound text n read in
      let made : next
          ≡ record seen { options = record seen.options { port = n }; saw_port = true } =
        ground arith in
      rw made (record {
        host = v.host;
        port = λ _. bound;
        remote = v.remote;
        local = v.local;
        delay = v.delay;
      })
]

set_delay-Sound :
    (seen next : Seen) (delay : Option ℕ)
    → Sound seen
    → set_delay seen delay ≡ some next
    → Sound next
unfolding set_delay
set_delay-Sound seen next none v e = absurd (true-ne-false (ground arith))
set_delay-Sound seen next (some n) v e =
    let small : n ≤ max_delay = ground arith in
    let made : next ≡ record seen { options = record seen.options { delay_ms = n % 2 ^ 32 } } =
      ground arith in
    rw made (record {
      host = v.host;
      port = v.port;
      remote = v.remote;
      local = v.local;
      delay = omega arith;
    })

take_option-Sound :
    (seen next : Seen) (argument value : Bytes)
    → Sound seen
    → take_option seen argument value ≡ some next
    → Sound next
unfolding take_option
take_option-Sound seen next argument value v e =
    elim (Bool-cases (same argument (codes "--host"))) [
      | inl host ↦ elim (Bool-cases (seen.saw_host || is_empty value)) [
        | inl bad ↦ absurd (true-ne-false (ground arith))
        | inr good ↦
            let made : next
                ≡ record seen { options = record seen.options { host = value }; saw_host = true } =
              ground arith in
            rw made (record {
              host = λ _. not_empty value (ground arith);
              port = v.port;
              remote = v.remote;
              local = v.local;
              delay = v.delay;
            })
      ]
      | inr not_host ↦ elim (Bool-cases (same argument (codes "--port"))) [
        | inl port ↦ set_port-Sound seen next value v (ground arith)
        | inr not_port ↦ elim (Bool-cases (same argument (codes "--remote"))) [
          | inl remote ↦ elim (Bool-cases (seen.saw_remote || not (is_safe_filename value))) [
            | inl bad ↦ absurd (true-ne-false (ground arith))
            | inr good ↦
                let made : next ≡ record seen {
                  options = record seen.options { remote_name = value };
                  saw_remote = true;
                } =
                  ground arith in
                rw made (record {
                  host = v.host;
                  port = v.port;
                  remote = λ _. ground arith;
                  local = v.local;
                  delay = v.delay;
                })
          ]
          | inr not_remote ↦ elim (Bool-cases (same argument (codes "--local"))) [
            | inl local ↦ elim (Bool-cases (seen.saw_local || is_empty value)) [
              | inl bad ↦ absurd (true-ne-false (ground arith))
              | inr good ↦
                  let made : next ≡ record seen {
                    options = record seen.options { local_path = value };
                    saw_local = true;
                  } =
                    ground arith in
                  rw made (record {
                    host = v.host;
                    port = v.port;
                    remote = v.remote;
                    local = λ _. not_empty value (ground arith);
                    delay = v.delay;
                  })
            ]
            | inr not_local ↦ elim (Bool-cases (same argument (codes "--delay-ms"))) [
              | inl delay ↦ set_delay-Sound seen next (parse_uint64 value) v (ground arith)
              | inr unknown ↦ absurd (true-ne-false (ground arith))
            ]
          ]
        ]
      ]
    ]

take_options-Sound :
    (arguments : List Bytes) (start : Option Seen) (last : Seen)
    → ((seen : Seen) → start ≡ some seen → Sound seen)
    → take_options arguments start ≡ some last
    → Sound last
unfolding take_options
take_options-Sound arguments none last v e = absurd (true-ne-false (ground arith))
take_options-Sound [] (some seen) last v e = v last e
take_options-Sound (argument ∷ []) (some seen) last v e = absurd (true-ne-false (ground arith))
take_options-Sound (argument ∷ value ∷ rest) (some seen) last v e =
    take_options-Sound rest (take_option seen argument value) last
      (λ next taken. take_option-Sound seen next argument value (v seen refl) taken) e

unseen-Sound : (command : Command) → Sound (unseen command)
unseen-Sound command = record {
  host = λ e. absurd (false-ne-true e);
  port = λ e. absurd (false-ne-true e);
  remote = λ e. absurd (false-ne-true e);
  local = λ e. absurd (false-ne-true e);
  delay = omega arith;
}

all_seen-Valid :
    (o : Option Seen) (options : Options)
    → ((seen : Seen) → o ≡ some seen → Sound seen)
    → all_seen o ≡ some options
    → Valid options
unfolding all_seen
all_seen-Valid none options v e = absurd (true-ne-false (ground arith))
all_seen-Valid (some seen) options v e =
    let sound = v seen refl in
    let read : seen.options ≡ options = ground arith in
    rw (← read) (record {
      host = sound.host (ground arith);
      port = sound.port (ground arith);
      remote = sound.remote (ground arith);
      local = sound.local (ground arith);
      delay = sound.delay;
    })

-- Options that the client accepts, whatever the arguments, have a host and a local path that are
-- not empty, a port from 1 to 65535, a safe remote name and a delay of at most 60000 milliseconds.
pub parse_options-Valid :
    (arguments : List Bytes) (options : Options)
    → parse_options arguments ≡ some options
    → Valid options
unfolding parse_options
parse_options-Valid [] options e = absurd (true-ne-false (ground arith))
parse_options-Valid (operation ∷ arguments) options e =
    elim (Bool-cases (same operation (codes "get"))) [
      | inl is_get ↦
          all_seen-Valid (take_options arguments (some (unseen get))) options (from get)
            (rw is_get at e)
      | inr not_get ↦ elim (Bool-cases (same operation (codes "put"))) [
        | inl is_put ↦
            all_seen-Valid (take_options arguments (some (unseen put))) options (from put)
              (rw (not_get, is_put) at e)
        | inr neither ↦ absurd (true-ne-false (ground arith))
      ]
    ]
  where
    from :
        (command : Command) (seen : Seen)
        → take_options arguments (some (unseen command)) ≡ some seen
        → Sound seen
    from command seen taken =
        take_options-Sound arguments (some (unseen command)) seen
          (λ first h. subst Sound (first_eq first h) (unseen-Sound command)) taken
      where
        first_eq : (first : Seen) → some (unseen command) ≡ some first → unseen command ≡ first
        first_eq first h = cc
