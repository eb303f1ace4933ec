-- ===== src/Config.antt =====
-- core/server_config.hpp and common/rapidjson_helper.hpp: the configuration of the servers. The JSON
-- library, the clock and `std::to_string` are the record `Platform`; a JSON value is what the
-- library's API shows of it. `printf` is left out.
pub mod Load
pub mod Loaded
pub mod Served
pub mod Complete
pub mod Prepared
use new_happy_server.Base.{
  ℕ, suc, ◌+◌, ◌-◌, ◌%◌, ◌^◌, Bool, true, false, not, Option, none, some, List, [], ◌∷◌, ◌++◌,
  length, ltb, ◌==◌, if◌then◌else◌,
}
use new_happy_server.Base.Texts.{codes}
use new_happy_server.Strings.{find, replace, split}
use new_happy_server.Router.{same_name}

-- An `int` is its bit pattern; `number` is one that `IsInt` does not hold of.
mutual
  pub data Json : Type 0 where
    null_value number : Json
    bool_value : Bool → Json
    int_value : ℕ → Json
    string_value : List ℕ → Json
    array : Elements → Json
    object : Members → Json

  pub data Elements : Type 0 where
    no_elements : Elements
    element : Json → Elements → Elements

  pub data Members : Type 0 where
    no_members : Members
    member : List ℕ → Json → Members → Members

-- `parse_json` is none for a parse error; `date` is the text of `strftime`.
pub record Platform : Type 0 where
  pub parse_json : List ℕ → Option Json
  pub write_json : Json → List ℕ
  pub int_text : ℕ → List ℕ
  pub hardware_concurrency : ℕ
  pub date : List ℕ

-- What a lookup or a call comes to: `crashes` is a failed assertion of the library or a null pointer.
pub data Attempt (A : Type 0) : Type 0 where
  gives : A → Attempt A
  refuses crashes : Attempt A

infixl 5 ◌>>=◌ ◌>>◌
unfoldable pub ◌>>=◌ : {A B : Type 0} → Attempt A → (A → Attempt B) → Attempt B
gives a >>= f = f a
refuses >>= f = refuses
crashes >>= f = crashes

abbrev pub ◌>>◌ : {B : Type 0} → Attempt (Unit {0}) → Attempt B → Attempt B
m >> k = m >>= λ _. k

abbrev pub find_member : List ℕ → Members → Option Json
find_member name no_members = none
find_member name (member n v ms) =
    let rest = find_member name ms in if same_name n name then some v else rest

-- The loop of `get_value` over the parts of a path: `refuses` stands for the default value.
unfoldable pub walk : Json → List (List ℕ) → Attempt Json
walk value [] = gives value
walk (object ms) (v ∷ vecs) = elim (find_member v ms) [
  | none ↦ refuses
  | some next ↦ walk next vecs
]
walk _ (v ∷ vecs) = crashes

unfoldable pub get_json : Json → List ℕ → Attempt Json
unfolding walk split
get_json value path = walk value (split path (codes "."))

-- The default where there is no value, and where it has another type.
abbrev pub or_default : {A : Type 0} → (Json → A) → A → Attempt Json → Attempt A
or_default typed dv (gives v) = gives (typed v)
or_default typed dv refuses = gives dv
or_default typed dv crashes = crashes

abbrev pub as_int : ℕ → Json → ℕ
as_int dv (int_value n) = n
as_int dv _ = dv

abbrev pub as_bool : Bool → Json → Bool
as_bool dv (bool_value b) = b
as_bool dv _ = dv

abbrev pub as_string : List ℕ → Json → List ℕ
as_string dv (string_value s) = s
as_string dv _ = dv

abbrev pub strings_of : Elements → List (List ℕ)
strings_of no_elements = []
strings_of (element v vs) = as_string [] v ∷ strings_of vs

abbrev pub as_strings : Json → List (List ℕ)
as_strings (array vs) = strings_of vs
as_strings _ = []

unfoldable pub get_int : Json → List ℕ → ℕ → Attempt ℕ
get_int value path dv = or_default (as_int dv) dv (get_json value path)

unfoldable pub get_bool : Json → List ℕ → Bool → Attempt Bool
get_bool value path dv = or_default (as_bool dv) dv (get_json value path)

unfoldable pub get_string : Json → List ℕ → List ℕ → Attempt (List ℕ)
get_string value path dv = or_default (as_string dv) dv (get_json value path)

unfoldable pub get_strings : Json → List ℕ → Attempt (List (List ℕ))
get_strings value path = or_default as_strings [] (get_json value path)

pub record ServiceConfig : Type 0 where
  pub unique : Bool
  pub threadid : ℕ
  pub type : List ℕ
  pub name : List ℕ
  pub config : List ℕ

pub record ServerConfig : Type 0 where
  pub sid : ℕ
  pub thread : ℕ
  pub loglevel : List ℕ
  pub name : List ℕ
  pub outer_host : List ℕ
  pub inner_host : List ℕ
  pub startup : List ℕ
  pub log : List ℕ
  pub path : List (List ℕ)
  pub cpath : List (List ℕ)
  pub services : List ServiceConfig

pub record Manager : Type 0 where
  pub sid_ : ℕ
  pub config_ : List ℕ
  pub data_ : List (ℕ × ServerConfig)

abbrev pub new_manager : Manager
new_manager = record { sid_ = 0; config_ = []; data_ = [] }

-- `replace` with a round for each byte and one more.
abbrev pub substitute : List ℕ → List ℕ → List ℕ → List ℕ
substitute s old new = elim (replace (suc (length s)) s old new) [ none ↦ s | some t ↦ t ]

-- The value of -1.
abbrev pub no_sid : ℕ
no_sid = 2 ^ 32 - 1
