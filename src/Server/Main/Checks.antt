-- ===== src/Server/Main/Checks.antt =====
-- Which arguments the server's `main` accepts.
use concurrent_tcp_file_tran.Base.{
  ◌≤◌, [], ◌∷◌, ◌≡◌, ◌≢◌, ◌∙◌, ◌⊎◌, sym, List, true, false, some, Bytes, not, ◌||◌, inl, inr, arith,
  codes, same, same→eq, true-ne-false, Bool-cases, Option-cases,
}
use concurrent_tcp_file_tran.Number.{parse_port, max_uint16}
use concurrent_tcp_file_tran.Number.Parse.{parse_port-exact}
use concurrent_tcp_file_tran.Server.Event.{is_empty}
use concurrent_tcp_file_tran.Server.Main.{
  Arguments, no_arguments, set_requested_port, take_argument, take_arguments, check_arguments,
  parse_arguments,
}

-- Of pairs of an option's name and its value, one has this name and a value of this kind.
pub data Given (option : Bytes) (P : Bytes → Type 0) : List Bytes → Type 0 where
  given_first :
      {value : Bytes} {rest : List Bytes} → P value → Given option P (option ∷ value ∷ rest)
  given_later :
      {other value : Bytes} {rest : List Bytes}
      → Given option P rest
      → Given option P (other ∷ value ∷ rest)

given_value :
    {option : Bytes} {P : Bytes → Type 0} {argv : List Bytes}
    → Given option P argv
    → (value : Bytes) × P value
given_value (given_first {value} p) = (value, p)
given_value (given_later g) = given_value g

-- The port that a text gives, and the root.
abbrev IsPort : Arguments → Bytes → Type 0
IsPort last value = parse_port value ≡ some last.requested_port

abbrev IsRoot : Arguments → Bytes → Type 0
IsRoot last value = value ≡ last.root_argument

abbrev SamePort : Arguments → Arguments → Type 0
SamePort a b = (b.saw_port ≡ a.saw_port) × (b.requested_port ≡ a.requested_port)

-- One option leaves the port alone or gives it, and so it does with the root.
take_argument-IsPort :
    (argument value : Bytes) (a b : Arguments)
    → take_argument argument value a ≡ some b
    → SamePort a b ⊎ ((argument ≡ codes "--port") × IsPort b value)
unfolding take_argument set_requested_port
take_argument-IsPort argument value a b e = elim (Bool-cases (same argument (codes "--port"))) [
  | inr other ↦ inl (ground arith, ground arith)
  | inl named ↦ elim (Option-cases (parse_port value)) [
    | inl bad ↦ absurd (true-ne-false (ground arith))
    | inr (port, read) ↦ inr (same→eq argument (codes "--port") named, ground arith)
  ]
]

take_argument-IsRoot :
    (argument value : Bytes) (a b : Arguments)
    → take_argument argument value a ≡ some b
    → (b.root_argument ≡ a.root_argument) ⊎ ((argument ≡ codes "--root") × IsRoot b value)
unfolding take_argument set_requested_port
take_argument-IsRoot argument value a b e = elim (Bool-cases (same argument (codes "--root"))) [
  | inr other ↦ inl (ground arith)
  | inl named ↦ elim (Bool-cases (same argument (codes "--port"))) [
    | inl port ↦ inl (ground arith)
    | inr root ↦ inr (same→eq argument (codes "--root") named, ground arith)
  ]
]

-- The port and the root at the end are those at the beginning, or were given.
take_arguments-IsPort :
    (argv : List Bytes) (a last : Arguments)
    → take_arguments argv a ≡ some last
    → SamePort a last ⊎ Given (codes "--port") (IsPort last) argv
unfolding take_arguments
take_arguments-IsPort [] a last e = inl (ground arith, ground arith)
take_arguments-IsPort (argument ∷ []) a last e = absurd (true-ne-false (ground arith))
take_arguments-IsPort (argument ∷ value ∷ rest) a last e =
    elim (Option-cases (take_argument argument value a)) [
      | inl bad ↦ absurd (true-ne-false (ground (arith, bad, e)))
      | inr (next, taken) ↦
          elim (take_arguments-IsPort rest next last (rw (take_arguments, taken) at e)) [
            | inr given ↦ inr (given_later given)
            | inl (saw, port) ↦ elim (take_argument-IsPort argument value a next taken) [
              | inl (saw', port') ↦ inl (saw ∙ saw', port ∙ port')
              | inr (named, read) ↦ inr (rw named (given_first (rw port read)))
            ]
          ]
    ]

take_arguments-IsRoot :
    (argv : List Bytes) (a last : Arguments)
    → take_arguments argv a ≡ some last
    → (last.root_argument ≡ a.root_argument) ⊎ Given (codes "--root") (IsRoot last) argv
unfolding take_arguments
take_arguments-IsRoot [] a last e = inl (ground arith)
take_arguments-IsRoot (argument ∷ []) a last e = absurd (true-ne-false (ground arith))
take_arguments-IsRoot (argument ∷ value ∷ rest) a last e =
    elim (Option-cases (take_argument argument value a)) [
      | inl bad ↦ absurd (true-ne-false (ground (arith, bad, e)))
      | inr (next, taken) ↦
          elim (take_arguments-IsRoot rest next last (rw (take_arguments, taken) at e)) [
            | inr given ↦ inr (given_later given)
            | inl kept ↦ elim (take_argument-IsRoot argument value a next taken) [
              | inl kept' ↦ inl (kept ∙ kept')
              | inr (named, is) ↦ inr (rw named (given_first (rw kept is)))
            ]
          ]
    ]

-- A port and a root that were given: the port is of 16 bits, and the root is not empty.
pub record Accepted (argv : List Bytes) (arguments : Arguments) : Type 0 where
  pub port_given : Given (codes "--port") (IsPort arguments) argv
  pub port : arguments.requested_port ≤ max_uint16
  pub seen : arguments.saw_port ≡ true
  pub root_given : Given (codes "--root") (IsRoot arguments) argv
  pub root : arguments.root_argument ≢ []

not_empty : (bytes : Bytes) → is_empty bytes ≡ false → bytes ≢ []
not_empty [] e e1 = true-ne-false e
not_empty (b ∷ bytes) e e1 = cc

complete-Accepted :
    (argv : List Bytes) (last : Arguments)
    → take_arguments argv no_arguments ≡ some last
    → last.saw_port ≡ true
    → last.root_argument ≢ []
    → Accepted argv last
complete-Accepted argv last taken seen root =
    let port_given : Given (codes "--port") (IsPort last) argv =
      elim (take_arguments-IsPort argv no_arguments last taken) [
        | inl (unseen, _) ↦ absurd (true-ne-false (sym seen ∙ unseen))
        | inr given ↦ given
      ] in
    let (value, read) = given_value port_given in
    record {
      port_given = port_given;
      port = ((parse_port-exact value last.requested_port).0 read).2;
      seen = seen;
      root_given = elim (take_arguments-IsRoot argv no_arguments last taken) [
        | inl none_given ↦ absurd (root none_given)
        | inr given ↦ given
      ];
      root = root;
    }

-- Where the server accepts its arguments, they hold, as pairs of an option and its value, --port
-- with a number that is the port and at most 65535, and --root with the root argument, which is not
-- empty.
pub parse_arguments-Accepted :
    (argv : List Bytes) (arguments : Arguments)
    → parse_arguments argv ≡ some arguments
    → Accepted argv arguments
unfolding parse_arguments check_arguments
parse_arguments-Accepted argv arguments e = elim (Option-cases (take_arguments argv no_arguments)) [
  | inl bad ↦ absurd (true-ne-false (ground (arith, bad, e)))
  | inr (last, taken) ↦ elim (Bool-cases (not last.saw_port || is_empty last.root_argument)) [
    | inl missing ↦ absurd (true-ne-false (ground (arith, taken, missing, e)))
    | inr complete ↦
        let same_one : last ≡ arguments = ground (arith, taken, complete, e) in
        rw (← same_one) (
          complete-Accepted argv last taken (ground (arith, complete))
            (not_empty last.root_argument (ground (arith, complete))))
  ]
]
