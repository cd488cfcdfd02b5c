-- ===== src/Host.antt =====
-- What the program takes from Go's runtime and standard library, as parameters of the model: the
-- `float64` operations, text functions over Unicode, codecs, the order in which a `range` loop
-- visits a map, and the file system.
use mathlib.Core.List.{Permᴰ}
use auto_mock_tools.Prelude.{ℕ, ◌≡◌, Bool, false, List, Option, Bytes, Assoc}
use auto_mock_tools.Json.{Json}

pub data ℤ : Type 0 where
  pos : ℕ → ℤ
  negsuc : ℕ → ℤ

-- `float64`; `to_int` and `of_int` are the conversions, `second` is `float64(time.Second)`
pub record Float (F : Type 0) : Type 0 where
  pub zero : F
  pub one : F
  pub two : F
  pub second : F
  pub add : F → F → F
  pub sub : F → F → F
  pub mul : F → F → F
  pub div : F → F → F
  pub lt : F → F → Bool
  pub to_int : F → ℤ
  pub of_int : ℤ → F
  pub lt-zero-zero : lt zero zero ≡ false

-- `none` is an error of the call. `url_path` is the `Path` of `url.Parse`.
pub record Codec (F : Type 0) : Type 0 where
  pub to_lower : Bytes → Bytes
  pub to_upper : Bytes → Bytes
  pub trim_space : Bytes → Bytes
  pub marshal : Json F → Option Bytes
  pub marshal_indent : Json F → Option Bytes
  pub unmarshal : Bytes → Option (Json F)
  pub url_path : Bytes → Option Bytes
  pub base64_decode : Bytes → Option Bytes
  pub gunzip : Bytes → Option Bytes
  pub base64_encode : Bytes → Bytes

-- The order in which `range` visits a map is any order of its entries.
pub record Range : Type 1 where
  pub visit : (V : Type 0) → Assoc V → Assoc V
  pub visit-perm : (V : Type 0) (m : Assoc V) → Permᴰ (visit V m) m

-- `makes n` is that `make([]byte, n)` does not panic, where `n` is no larger than the runtime allows.
pub record Host (F : Type 0) : Type 1 where
  pub float : Float F
  pub open float use *
  pub codec : Codec F
  pub open codec use *
  pub range : Range
  pub open range use *
  pub makes : ℕ → Bool

pub record DirEntry : Type 0 where
  pub name : Bytes
  pub is_dir : Bool

-- `missing` is `os.IsNotExist` of the error of `os.Stat`.
pub record FileSystem : Type 0 where
  pub missing : Bytes → Bool
  pub read_dir : Bytes → Option (List DirEntry)
  pub read_file : Bytes → Option Bytes
