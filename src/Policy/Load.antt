-- ===== src/Policy/Load.antt =====
-- internal/policy/policy.go: `LoadPolicyFromFile`. The reading of a file and the decoding of JSON are
-- arguments.
use datafog.Prelude.{
  String, true, ◌≡◌, refl, Option, none, some, List, [], ◌∷◌, ◌==◌, is_empty, if◌then◌else◌,
  Bool-cases, inl, inr,
}
use datafog.Strings.{Unicode, trim_space}
use datafog.Strings.Path.{clean}
use datafog.Models.{Policy}
use datafog.Policy.Validate.{PolicyError, validate_policy}
use datafog.Policy.Valid.{IsValidPolicy, validate_policy-eq-nil}
use datafog.Receipts.{contains_nul}

pub data LoadError : Type 0 where
  invalid_path unreadable undecodable : LoadError
  invalid : List PolicyError → LoadError

pub data Loading : Type 0 where
  loaded : Policy → Loading
  refused : LoadError → Loading

module _ ⦃u : Unicode⦄ where
  unfoldable pub check_policy : Option Policy → Loading
  check_policy none = refused undecodable
  check_policy (some policy) =
      if is_empty (validate_policy policy)
      then loaded policy
      else refused (invalid (validate_policy policy))

  unfoldable pub decode_content : (String → Option Policy) → Option String → Loading
  unfolding check_policy
  decode_content decode none = refused unreadable
  decode_content decode (some content) = check_policy (decode content)

  unfoldable pub load_policy_from_file :
      (String → Option String) → (String → Option Policy) → String → Loading
  unfolding decode_content
  load_policy_from_file read_file decode path =
      if contains_nul (trim_space path)
      then refused invalid_path
      else if clean (trim_space path) == "."
      then refused invalid_path
      else decode_content decode (read_file (clean (trim_space path)))

  nothing_wrong : (errors : List PolicyError) → is_empty errors ≡ true → errors ≡ []
  nothing_wrong [] h = refl
  nothing_wrong (e ∷ errors) h = cc

  check-IsValidPolicy :
      (o : Option Policy) (policy : Policy) → check_policy o ≡ loaded policy → IsValidPolicy policy
  unfolding check_policy
  check-IsValidPolicy none policy h = cc
  check-IsValidPolicy (some p) policy h = elim (Bool-cases (is_empty (validate_policy p))) [
    | inl e ↦
        let same : p ≡ policy = cc (rw e at h) in
        rw (← same) ((validate_policy-eq-nil p).0 (nothing_wrong (validate_policy p) e))
    | inr e ↦ cc (rw e at h)
  ]

  decode-IsValidPolicy :
      (decode : String → Option Policy) (o : Option String) (policy : Policy)
      → decode_content decode o ≡ loaded policy
      → IsValidPolicy policy
  unfolding decode_content
  decode-IsValidPolicy decode none policy h = cc
  decode-IsValidPolicy decode (some content) policy h =
      check-IsValidPolicy (decode content) policy h

  -- A policy that is loaded is valid.
  pub load-IsValidPolicy :
      (read_file : String → Option String) (decode : String → Option Policy) (path : String)
      (policy : Policy)
      → load_policy_from_file read_file decode path ≡ loaded policy
      → IsValidPolicy policy
  unfolding load_policy_from_file
  load-IsValidPolicy read_file decode path policy h =
      elim (Bool-cases (contains_nul (trim_space path))) [
        | inl n ↦ cc (rw n at h)
        | inr n ↦ elim (Bool-cases (clean (trim_space path) == ".")) [
          | inl d ↦ cc (rw (n, d) at h)
          | inr d ↦
              decode-IsValidPolicy decode (read_file (clean (trim_space path))) policy
                (rw (n, d) at h)
        ]
      ]
