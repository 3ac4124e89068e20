-- ===== src/Value/Types.antt =====
-- src/cql_value.rs: the values, their equality, and the wire form that is written to a buffer.
use rhyda.Prelude.{
  ℕ, suc, ◌%◌, ◌^◌, Bool, true, false, not, ◌&&◌, ◌||◌, ◌==◌, leb, [], ◌∷◌, ◌++◌, length,
}
use rhyda.Prelude.Int.{ℤ, negsuc, int_eq, wrap}
use rhyda.Prelude.Bytes.{Bytes, bytes_eq, to_be}

-- `std::net::IpAddr`, by its octets: 4 of them, or 16.
pub data IpAddr : Type 0 where
  v4 : Bytes → IpAddr
  v6 : Bytes → IpAddr

-- A float is its bit pattern. `Vec<Value>` and `Vec<(Value, Value)>` are the lists of the block.
mutual
  pub data Value : Type 0 where
    null : Value
    int : ℤ → Value
    big_int : ℤ → Value
    small_int : ℤ → Value
    tiny_int : ℤ → Value
    float : ℕ → Value
    double : ℕ → Value
    boolean : Bool → Value
    text : Bytes → Value
    blob : Bytes → Value
    timestamp : ℤ → Value
    uuid : Bytes → Value
    inet : IpAddr → Value
    set : Values → Value
    list : Values → Value
    map : Entries → Value

  pub data Values : Type 0 where
    nil : Values
    cons : Value → Values → Values

  pub data Entries : Type 0 where
    end : Entries
    entry : Value → Value → Entries → Entries

-- `Vec::len`
abbrev pub count : Values → ℕ
count nil = 0
count (cons v vs) = suc (count vs)

abbrev pub count_entries : Entries → ℕ
count_entries end = 0
count_entries (entry k v es) = suc (count_entries es)

abbrev pub octets : IpAddr → Bytes
octets (v4 o) = o
octets (v6 o) = o

abbrev pub bool_byte : Bool → ℕ
bool_byte true = 1
bool_byte false = 0

abbrev pub int_be : ℕ → ℕ → ℤ → Bytes
int_be width m z = to_be width (wrap m z)

-- `extend_from_slice(&(n as i32).to_be_bytes())`
abbrev pub put_len : Bytes → ℕ → Bytes
put_len out n = out ++ to_be 4 n

-- `write_wire(&self, out)` gives the buffer that `out` becomes.
unfoldable mutual
  pub write_wire : Value → Bytes → Bytes
  write_wire null out = out ++ int_be 4 (2 ^ 32) (negsuc 0)
  write_wire (int v) out = put_len out 4 ++ int_be 4 (2 ^ 32) v
  write_wire (big_int v) out = put_len out 8 ++ int_be 8 (2 ^ 64) v
  write_wire (small_int v) out = put_len out 2 ++ int_be 2 (2 ^ 16) v
  write_wire (tiny_int v) out = put_len out 1 ++ int_be 1 (2 ^ 8) v
  write_wire (float v) out = put_len out 4 ++ to_be 4 v
  write_wire (double v) out = put_len out 8 ++ to_be 8 v
  write_wire (boolean v) out = put_len out 1 ++ bool_byte v ∷ []
  write_wire (text v) out = put_len out (length v) ++ v
  write_wire (blob v) out = put_len out (length v) ++ v
  write_wire (timestamp v) out = put_len out 8 ++ int_be 8 (2 ^ 64) v
  write_wire (uuid v) out = put_len out 16 ++ v
  write_wire (inet (v4 a)) out = put_len out 4 ++ a
  write_wire (inet (v6 a)) out = put_len out 16 ++ a
  write_wire (set values) out =
      let payload = write_values values (put_len [] (count values)) in
      put_len out (length payload) ++ payload
  write_wire (list values) out =
      let payload = write_values values (put_len [] (count values)) in
      put_len out (length payload) ++ payload
  write_wire (map entries) out =
      let payload = write_entries entries (put_len [] (count_entries entries)) in
      put_len out (length payload) ++ payload

  pub write_values : Values → Bytes → Bytes
  write_values nil payload = payload
  write_values (cons e es) payload = write_values es (write_wire e payload)

  pub write_entries : Entries → Bytes → Bytes
  write_entries end payload = payload
  write_entries (entry k v es) payload = write_entries es (write_wire v (write_wire k payload))

unfoldable pub to_wire : Value → Bytes
unfolding write_wire
to_wire v = write_wire v []

-- The loops of `raw_bytes` over the elements.
unfoldable pub extend_values : Bytes → Values → Bytes
extend_values out nil = out
extend_values out (cons v vs) = extend_values (out ++ to_wire v) vs

unfoldable pub extend_entries : Bytes → Entries → Bytes
extend_entries out end = out
extend_entries out (entry k v es) = extend_entries ((out ++ to_wire k) ++ to_wire v) es

unfoldable pub raw_bytes : Value → Bytes
unfolding extend_values extend_entries to_wire
raw_bytes null = []
raw_bytes (int v) = int_be 4 (2 ^ 32) v
raw_bytes (big_int v) = int_be 8 (2 ^ 64) v
raw_bytes (small_int v) = int_be 2 (2 ^ 16) v
raw_bytes (tiny_int v) = int_be 1 (2 ^ 8) v
raw_bytes (float v) = to_be 4 v
raw_bytes (double v) = to_be 8 v
raw_bytes (boolean v) = bool_byte v ∷ []
raw_bytes (text v) = v
raw_bytes (blob v) = v
raw_bytes (timestamp v) = int_be 8 (2 ^ 64) v
raw_bytes (uuid v) = v
raw_bytes (inet v) = octets v
raw_bytes (set values) = extend_values (put_len [] (count values)) values
raw_bytes (list values) = extend_values (put_len [] (count values)) values
raw_bytes (map entries) = extend_entries (put_len [] (count_entries entries)) entries

-- IEEE equality of two bit patterns with `e` exponent bits from 2 ^ m up: no NaN equals anything,
-- and the two zeros are equal.
abbrev magnitude : ℕ → ℕ → ℕ
magnitude sign u = u % sign

unfoldable pub float_eq : ℕ → ℕ → ℕ → ℕ → Bool
float_eq sign infinity a b =
    leb (magnitude sign a) infinity
    && leb (magnitude sign b) infinity
    && (a == b || (magnitude sign a == 0 && magnitude sign b == 0))

abbrev pub f32_eq : ℕ → ℕ → Bool
f32_eq = float_eq (2 ^ 31) 0x7f80_0000

abbrev pub f64_eq : ℕ → ℕ → Bool
f64_eq = float_eq (2 ^ 63) 0x7ff0_0000_0000_0000

abbrev pub bool_eq : Bool → Bool → Bool
bool_eq true b = b
bool_eq false b = not b

abbrev pub ip_eq : IpAddr → IpAddr → Bool
ip_eq (v4 a) (v4 b) = bytes_eq a b
ip_eq (v6 a) (v6 b) = bytes_eq a b
ip_eq _ _ = false

-- The derived `PartialEq`.
unfoldable mutual
  pub value_eq : Value → Value → Bool
  value_eq null null = true
  value_eq (int a) (int b) = int_eq a b
  value_eq (big_int a) (big_int b) = int_eq a b
  value_eq (small_int a) (small_int b) = int_eq a b
  value_eq (tiny_int a) (tiny_int b) = int_eq a b
  value_eq (float a) (float b) = f32_eq a b
  value_eq (double a) (double b) = f64_eq a b
  value_eq (boolean a) (boolean b) = bool_eq a b
  value_eq (text a) (text b) = bytes_eq a b
  value_eq (blob a) (blob b) = bytes_eq a b
  value_eq (timestamp a) (timestamp b) = int_eq a b
  value_eq (uuid a) (uuid b) = bytes_eq a b
  value_eq (inet a) (inet b) = ip_eq a b
  value_eq (set a) (set b) = values_eq a b
  value_eq (list a) (list b) = values_eq a b
  value_eq (map a) (map b) = entries_eq a b
  value_eq _ _ = false

  pub values_eq : Values → Values → Bool
  values_eq nil nil = true
  values_eq (cons a as') (cons b bs) = value_eq a b && values_eq as' bs
  values_eq _ _ = false

  pub entries_eq : Entries → Entries → Bool
  entries_eq end end = true
  entries_eq (entry j a es) (entry k b fs) = value_eq j k && (value_eq a b && entries_eq es fs)
  entries_eq _ _ = false
