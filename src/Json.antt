-- ===== src/Json.antt =====
-- The values that json.loads gives, and what the handlers ask of them (service/api/websocket.py,
-- service/models/session.py). `F` is Python's float.
use igrill_remote_server.Prelude.{
  ℤ, pos, String, Bool, true, false, not, Option, none, some, List, [], ◌∷◌, eq_ℤ, str_eq,
  is_truthy, if◌then◌else◌,
}
use igrill_remote_server.Action.{Result, ok, err, type_error, attribute_error}

mutual
  pub data Json (F : Type 0) : Type 0 where
    null : Json F
    flag : Bool → Json F
    int : ℤ → Json F
    float : F → Json F
    text : String → Json F
    array : Items F → Json F
    object : Fields F → Json F

  pub data Items (F : Type 0) : Type 0 where
    nil : Items F
    cons : Json F → Items F → Items F

  pub data Fields (F : Type 0) : Type 0 where
    end : Fields F
    field : String → Json F → Fields F → Fields F

-- int(), float() and str(), where they leave what is written out below to the interpreter.
pub record Python (F : Type 0) : Type 0 where
  pub int_of_float : F → Result ℤ
  pub int_of_text : String → Result ℤ
  pub float_of_int : ℤ → Result F
  pub float_of_text : String → Result F
  pub text_of : Json F → String

module _ {F : Type 0} where
  -- `d.get(key)`, where the last of equal keys has won in the parser.
  unfoldable pub find_field : String → Fields F → Option (Json F)
  find_field key end = none
  find_field key (field k v rest) = elim (find_field key rest) [
    | none ↦ if str_eq k key then some v else none
    | some w ↦ some w
  ]

  -- `d.get(key, default)`
  unfoldable pub get_field : String → Json F → Fields F → Json F
  get_field key missing fields = elim (find_field key fields) [ none ↦ missing | some v ↦ v ]

  -- `.get` of a value that is no dictionary is an AttributeError.
  unfoldable pub as_object : Json F → Result (Fields F)
  as_object (object fields) = ok fields
  as_object null = err attribute_error
  as_object (flag b) = err attribute_error
  as_object (int n) = err attribute_error
  as_object (float x) = err attribute_error
  as_object (text s) = err attribute_error
  as_object (array items) = err attribute_error

  abbrev pub items : Items F → List (Json F)
  items nil = []
  items (cons v rest) = v ∷ items rest

  abbrev pub keys : Fields F → List (Json F)
  keys end = []
  keys (field k v rest) = text k ∷ keys rest

  abbrev pub characters : String → List (Json F)
  characters String.[] = []
  characters (String.◌∷◌ c s) = text (String.◌∷◌ c String.[]) ∷ characters s

  -- `for x in value`
  unfoldable pub iterate : Json F → Result (List (Json F))
  iterate (array l) = ok (items l)
  iterate (object fields) = ok (keys fields)
  iterate (text s) = ok (characters s)
  iterate null = err type_error
  iterate (flag b) = err type_error
  iterate (int n) = err type_error
  iterate (float x) = err type_error

  abbrev pub is_null : Json F → Bool
  is_null null = true
  is_null _ = false

  -- A list of texts; any other member ends in a TypeError, where it is hashed or joined.
  unfoldable pub texts : List (Json F) → Result (List String)
  texts [] = ok []
  texts (text s ∷ rest) = elim (texts rest) [ ok l ↦ ok (s ∷ l) | err e ↦ err e ]
  texts (null ∷ rest) = err type_error
  texts (flag b ∷ rest) = err type_error
  texts (int n ∷ rest) = err type_error
  texts (float x ∷ rest) = err type_error
  texts (array l ∷ rest) = err type_error
  texts (object o ∷ rest) = err type_error

  -- bool(value)
  unfoldable pub truthy : (F → Bool) → Json F → Bool
  truthy is_zero null = false
  truthy is_zero (flag b) = b
  truthy is_zero (int n) = not (eq_ℤ n (pos 0))
  truthy is_zero (float x) = not (is_zero x)
  truthy is_zero (text s) = is_truthy s
  truthy is_zero (array nil) = false
  truthy is_zero (array (cons v rest)) = true
  truthy is_zero (object end) = false
  truthy is_zero (object (field k v rest)) = true

abbrev pub bit : Bool → ℤ
bit false = pos 0
bit true = pos 1

module _ {F : Type 0} (P : Python F) where
  unfoldable pub to_int : Json F → Result ℤ
  to_int (int n) = ok n
  to_int (flag b) = ok (bit b)
  to_int (float x) = P.int_of_float x
  to_int (text s) = P.int_of_text s
  to_int null = err type_error
  to_int (array l) = err type_error
  to_int (object o) = err type_error

  unfoldable pub to_float : Json F → Result F
  to_float (float x) = ok x
  to_float (int n) = P.float_of_int n
  to_float (flag b) = P.float_of_int (bit b)
  to_float (text s) = P.float_of_text s
  to_float null = err type_error
  to_float (array l) = err type_error
  to_float (object o) = err type_error

  unfoldable pub to_text : Json F → String
  to_text (text s) = s
  to_text v = P.text_of v
