-- ===== src/Platform.antt =====
-- What the program calls and the repository does not hold: the operating system's file functions
-- (through std::filesystem and std::fstream) and the nlohmann JSON package. Both are parameters of
-- the model: a record of operations each, with no laws.
use silicon.Prelude.{ℕ, Bool, Option, List}
use silicon.Prelude.Int.{ℤ}
use silicon.Text.{Str}

-- The value of a call that takes an error_code: the value, or the code that it set.
pub data Outcome {ℓ} (A : Type ℓ) : Type ℓ where
  done : A → Outcome A
  failed : ℕ → Outcome A

-- nlohmann::json
pub record JsonLib : Type 1 where
  pub Json : Type 0
  pub parse : Str → Option Json  -- `file >> json`; none: it threw
  pub dump : Json → Str  -- dump(2)
  pub is_object : Json → Bool
  pub is_array : Json → Bool
  pub is_string : Json → Bool
  pub is_number_integer : Json → Bool
  pub is_boolean : Json → Bool
  pub contains : Json → Str → Bool
  pub at : Json → Str → Json
  pub elements : Json → List Json  -- `for (entry : json)`
  pub get_string : Json → Str
  pub get_int : Json → ℤ  -- get<int>()
  pub get_bool : Json → Bool
  pub object : List (Str × Json) → Json
  pub array : List Json → Json
  pub string : Str → Json
  pub integer : ℕ → Json
  pub boolean : Bool → Json

-- The file system and the environment, as ConfigManager uses them.
pub record Os : Type 1 where
  pub Disk : Type 0
  pub home : Option Str  -- getenv("HOME")
  pub exists : Disk → Str → Outcome Bool
  pub file_size : Disk → Str → Outcome ℕ
  pub create_directories : Disk → Str → Disk × Outcome Bool
  pub read_file : Disk → Str → Option Str  -- std::ifstream; none: it does not open
  pub write_file : Disk → Str → Str → Disk × Option Bool  -- std::ofstream; none: it does not open
  pub absolute : Disk → Str → Outcome Str
  pub weakly_canonical : Disk → Str → Outcome Str
