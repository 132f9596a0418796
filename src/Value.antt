-- ===== src/Value.antt =====
-- opentracing::Value, and its JSON as src/common/utility.cpp writes it (WriteEscapedString, ToJson).
-- A text is the list of its bytes, an int64_t the number that its 64 bits are.
use lightstep_tracer_cpp.Base.{
  ℕ, zero, suc, ◌+◌, ◌-◌, ◌/◌, ◌%◌, ◌^◌, Bool, true, false, List, [], ◌∷◌, ◌++◌, codes, ltb, ◌==◌,
  if◌then◌else◌,
}
use lightstep_tracer_cpp.Decimal.{print_uint64}
pub mod Json

-- The alternatives of the variant; a `double` is the eight bytes that it is stored in.
mutual
  pub data Value : Type 0 where
    bool_value : Bool → Value
    double_value : List ℕ → Value
    int64_value : ℕ → Value
    uint64_value : ℕ → Value
    string_value : List ℕ → Value
    null_value : Value
    c_string_value : List ℕ → Value
    values_value : Values → Value
    dictionary_value : Dictionary → Value

  pub data Values : Type 0 where
    no_values : Values
    more_values : Value → Values → Values

  pub data Dictionary : Type 0 where
    no_entries : Dictionary
    more_entries : List ℕ → Value → Dictionary → Dictionary

-- An ostringstream: what it holds, and whether std::hex has been put into it.
pub record Writer : Type 0 where
  pub text : List ℕ
  pub hex : Bool

abbrev pub write_text : List ℕ → Writer → Writer
write_text t w = record w { text = w.text ++ t }

-- The digits of `n` in base 16 in front of `out`, at most `fuel` of them.
unfoldable pub print_hex_digits : ℕ → ℕ → List ℕ → List ℕ
print_hex_digits zero n out = out
print_hex_digits (suc fuel) n out =
    let d = n % 16 in
    let shown = (if ltb d 10 then b'0' + d else b'a' + (d - 10)) ∷ out in
    let more = print_hex_digits fuel (n / 16) shown in if n / 16 == 0 then shown else more

unfoldable pub print_hex : ℕ → List ℕ
unfolding print_hex_digits
print_hex n = print_hex_digits 16 n []

-- What `<<` of integers puts into a stream.
unfoldable pub write_uint64 : ℕ → Writer → Writer
unfolding print_hex print_uint64
write_uint64 n w = write_text (if w.hex then print_hex n else print_uint64 n) w

unfoldable pub write_int64 : ℕ → Writer → Writer
unfolding print_hex print_uint64
write_int64 n w =
    write_text
      (if w.hex
        then print_hex n
        else if ltb n (2 ^ 63)
        then print_uint64 n
        else b'-' ∷ print_uint64 (2 ^ 64 - n))
      w

-- `std::hex << std::setw(4) << std::setfill('0')` on a number below 32; the stream stays in base 16.
unfoldable pub write_unicode : ℕ → Writer → Writer
unfolding print_hex_digits
write_unicode c w = record {
  text = w.text ++ (codes "\\u00" ++ ((b'0' + c / 16) ∷ print_hex_digits 1 c []));
  hex = true;
}

unfoldable pub write_escaped_char : ℕ → Writer → Writer
unfolding write_unicode
write_escaped_char c w =
    if c == b'"'
    then write_text (codes "\\\"") w
    else if c == b'\\'
    then write_text (codes "\\\\") w
    else if c == 8
    then write_text (codes "\\b") w
    else if c == 10
    then write_text (codes "\\n") w
    else if c == 13
    then write_text (codes "\\r") w
    else if c == 9
    then write_text (codes "\\t") w
    else if ltb c 32
    then write_unicode c w
    else write_text (c ∷ []) w

unfoldable pub write_escaped_chars : List ℕ → Writer → Writer
unfolding write_escaped_char
write_escaped_chars [] w = w
write_escaped_chars (c ∷ s) w = write_escaped_chars s (write_escaped_char c w)

unfoldable pub write_escaped_string : List ℕ → Writer → Writer
unfolding write_escaped_chars
write_escaped_string s w = write_text (b'"' ∷ []) (write_escaped_chars s (write_text (b'"' ∷ []) w))

-- What `<<` puts into the stream for a finite `double`, and what kind of number it is.
pub record Doubles : Type 0 where
  pub is_nan : List ℕ → Bool
  pub is_inf : List ℕ → Bool
  pub signbit : List ℕ → Bool
  pub print_double : List ℕ → List ℕ

module _ (D : Doubles) where
  unfoldable pub double_text : List ℕ → List ℕ
  double_text x =
      if D.is_nan x
      then codes "\"NaN\""
      else if D.is_inf x
      then if D.signbit x then codes "\"-Inf\"" else codes "\"+Inf\""
      else D.print_double x

  -- `JsonValueVisitor`; the comma stands before every element but the first.
  unfoldable mutual
    unfolding double_text write_int64 write_uint64 write_escaped_string

    pub write_json : Value → Writer → Writer
    write_json (bool_value b) w = write_text (if b then codes "true" else codes "false") w
    write_json (double_value x) w = write_text (double_text x) w
    write_json (int64_value n) w = write_int64 n w
    write_json (uint64_value n) w = write_uint64 n w
    write_json (string_value s) w = write_escaped_string s w
    write_json null_value w = write_text (codes "null") w
    write_json (c_string_value s) w = write_escaped_string s w
    write_json (values_value vs) w =
        write_text (b']' ∷ []) (write_values vs (write_text (b'[' ∷ []) w))
    write_json (dictionary_value d) w =
        write_text (b'}' ∷ []) (write_entries d (write_text (b'{' ∷ []) w))

    pub write_values : Values → Writer → Writer
    write_values no_values w = w
    write_values (more_values v vs) w = write_more_values vs (write_json v w)

    pub write_more_values : Values → Writer → Writer
    write_more_values no_values w = w
    write_more_values (more_values v vs) w =
        write_more_values vs (write_json v (write_text (b',' ∷ []) w))

    pub write_entries : Dictionary → Writer → Writer
    write_entries no_entries w = w
    write_entries (more_entries k v d) w =
        write_more_entries d (write_json v (write_text (b':' ∷ []) (write_escaped_string k w)))

    pub write_more_entries : Dictionary → Writer → Writer
    write_more_entries no_entries w = w
    write_more_entries (more_entries k v d) w =
        write_more_entries d (
          write_json v (write_text (b':' ∷ []) (write_escaped_string k (write_text (b',' ∷ []) w))))

  unfoldable pub to_json : Value → List ℕ
  unfolding write_json
  to_json v = (write_json v (record { text = []; hex = false })).text
