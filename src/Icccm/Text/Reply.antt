-- ===== src/Icccm/Text/Reply.antt =====
-- Names of windows on their way through the server, and the two strings of WM_CLASS.
use xcb_util.Prelude.{
  ℕ, suc, ◌+◌, ◌*◌, ◌/◌, ◌^◌, ◌≤◌, ◌<◌, ◌≡◌, ◌≢◌, refl, ap, ◌∙◌, inl, List, [], ◌∷◌, ◌++◌, All,
  length, length-append, take, drop, Bool, true, false, ◌==◌, if◌then◌else◌, Option, some, Outcome,
  done, ◌>>=◌, ltb, mul_int, ◌>>>◌, arith,
}
use mathlib.Core.List.{append_assoc}
use xcb_util.Request.{PropertyReply, change_property}
use xcb_util.Property.{get_any_property}
use xcb_util.Icccm.{
  string_atom, mode_replace, uint_max, strlen, wm_name_atom, wm_icon_name_atom,
  wm_client_machine_atom,
}
use xcb_util.Memory.{take-prefix, length-take}
use xcb_util.Icccm.Server.{Server, IsByteLength}
use xcb_util.Icccm.Text.{
  TextProperty, WmClass, text_property_reply, class_from_reply, get_text_property, set_wm_name,
  get_wm_name, set_wm_icon_name, get_wm_icon_name, set_wm_client_machine, get_wm_client_machine,
}

-- A text of `n` bytes in the encoding `encoding`.
pub record IsText (encoding n : ℕ) (name : List ℕ) (read : Outcome (Option TextProperty))
    : Type 0 where
  pub text : TextProperty
  pub found : read ≡ done (some text)
  pub same_encoding : text.encoding ≡ encoding
  pub bytes : text.format ≡ 8
  pub same_length : text.name_len ≡ n
  pub same_name : take n text.name ≡ take n name

-- Of a property of bytes the length is the number of its elements.
bytes :
    (value_length : PropertyReply → ℕ) (reply : PropertyReply)
    → IsByteLength value_length
    → reply.format ≡ 8
    → value_length reply ≡ reply.value_len
bytes value_length reply documented f = rw (documented reply, f) (omega arith)

text_lem :
    (value_length : PropertyReply → ℕ) (reply : PropertyReply) (n : ℕ)
    → value_length reply ≡ n
    → reply.format ≡ 8
    → n < 2 ^ 28
    → text_property_reply value_length (some reply)
      ≡ done (
          some (record {
            encoding = reply.type;
            name_len = n;
            name = reply.value;
            format = reply.format;
          }))
unfolding text_property_reply
text_lem value_length reply n len format small =
    let text : ℕ → TextProperty = λ l. record {
      encoding = reply.type;
      name_len = l;
      name = reply.value;
      format = reply.format;
    } in
    let fits : ltb (n * 8) (2 ^ 31) ≡ true = ground (arith, small) in
    let bits : mul_int (value_length reply) reply.format ≡ done (n * 8) =
      rw (len, format, fits) refl in
    let cut : n * 8 / 8 ≡ n = omega arith in
    ap (λ m. do bits ← m; done (some (text (bits >>> 3)))) bits ∙ ap (λ l. done (some (text l))) cut

module _ (server : Server) (value_length : PropertyReply → ℕ)
    (documented : IsByteLength value_length) where
  IsText-round_trip :
      (s : server.State) (checked checked' : Bool) (window property encoding n : ℕ) (name : List ℕ)
      → n < 2 ^ 28
      → n ≤ length name
      → IsText encoding n name (
          text_property_reply value_length (
            server.fetch
              (server.send s
                (change_property checked mode_replace window property encoding 8 n name))
              (get_text_property checked' window property)))
  unfolding text_property_reply get_text_property get_any_property
  IsText-round_trip s checked checked' window property encoding n name small enough =
      let bits : n * 8 / 8 ≡ n = omega arith in
      let (reply, e, stored) =
        server.stored s checked window property encoding 8 n name checked' 0 uint_max (omega arith)
          (omega arith) (inl refl) in
      let value : reply.value ≡ take n name ++ stored.rest = rw bits at stored.same_value in
      let len : value_length reply ≡ n =
        bytes value_length reply documented stored.same_format ∙ stored.elements in
      record {
        text = record {
          encoding = reply.type;
          name_len = n;
          name = reply.value;
          format = reply.format;
        };
        found = rw e (text_lem value_length reply n len stored.same_format small);
        same_encoding = stored.same_type;
        bytes = stored.same_format;
        same_length = refl;
        same_name = rw value (take-prefix n (take n name) stored.rest (length-take n name enough));
      }

-- Each text that is set for a window as its name, its icon's name or its machine is read back from
-- the server with the encoding and the bytes that were given. The text is shorter than 2 ^ 28 bytes, beyond
-- which the number of its bits overflows an `int`.
pub names-round_trip :
    (server : Server) (value_length : PropertyReply → ℕ) (s : server.State)
    (checked checked' : Bool) (window encoding n : ℕ) (name : List ℕ)
    → IsByteLength value_length
    → n < 2 ^ 28
    → n ≤ length name
    → IsText encoding n name (
        text_property_reply value_length (
          server.fetch
            (server.send s (set_wm_name checked window encoding n name))
            (get_wm_name checked' window)))
      × IsText encoding n name (
          text_property_reply value_length (
            server.fetch
              (server.send s (set_wm_icon_name checked window encoding n name))
              (get_wm_icon_name checked' window)))
      × IsText encoding n name (
          text_property_reply value_length (
            server.fetch
              (server.send s (set_wm_client_machine checked window encoding n name))
              (get_wm_client_machine checked' window)))
unfolding set_wm_name get_wm_name set_wm_icon_name get_wm_icon_name set_wm_client_machine
    get_wm_client_machine
names-round_trip server value_length s checked checked' window encoding n name documented small
      enough =
    let trip = λ (property : ℕ).
      IsText-round_trip server value_length documented s checked checked' window property encoding n
        name small enough in
    (trip wm_name_atom, trip wm_icon_name_atom, trip wm_client_machine_atom)

-- The string at an address: up to the first null character.
unfoldable pub c_string : List ℕ → List ℕ
c_string [] = []
c_string (c ∷ cs) = if c == 0 then [] else c ∷ c_string cs

-- No null character in it.
abbrev pub IsName : List ℕ → Type 0
IsName xs = All (λ c. c ≢ 0) xs

nonzero : (c : ℕ) → c ≢ 0 → (c == 0) ≡ false
nonzero c h = ground arith

strlen-name : (xs ys : List ℕ) → IsName xs → strlen (xs ++ (0 ∷ ys)) ≡ done (length xs)
unfolding strlen
strlen-name [] ys h = refl
strlen-name (x ∷ xs) ys h = rw (nonzero x h.0, strlen-name xs ys h.1)

c_string-name : (xs ys : List ℕ) → IsName xs → c_string (xs ++ (0 ∷ ys)) ≡ xs
unfolding c_string
c_string-name [] ys h = refl
c_string-name (x ∷ xs) ys h = rw (nonzero x h.0) (ap (λ l. x ∷ l) (c_string-name xs ys h.1))

drop-name : (xs ys : List ℕ) → drop (length xs) (xs ++ ys) ≡ ys
drop-name [] ys = refl
drop-name (x ∷ xs) ys = drop-name xs ys

drop-name_suc : (xs ys : List ℕ) (y : ℕ) → drop (length xs + 1) (xs ++ (y ∷ ys)) ≡ ys
drop-name_suc [] ys y = refl
drop-name_suc (x ∷ xs) ys y =
    let s : length (x ∷ xs) + 1 ≡ suc (length xs + 1) = omega arith in rw s (drop-name_suc xs ys y)

-- The two strings that are found.
abbrev pub Finds : (PropertyReply → ℕ) → PropertyReply → List ℕ → List ℕ → Type 0
Finds value_length reply name class =
    (w : WmClass) × (class_from_reply value_length (some reply) ≡ done (some w))
    × (c_string w.instance_name ≡ name)
    × (c_string w.class_name ≡ class)

module _ (value_length : PropertyReply → ℕ) (reply : PropertyReply)
    (right_type : reply.type ≡ string_atom) (right_format : reply.format ≡ 8) where
  two-Finds :
      (name class more : List ℕ)
      → reply.value ≡ name ++ (0 ∷ (class ++ (0 ∷ more)))
      → IsName name
      → IsName class
      → length name < value_length reply
      → Finds value_length reply name class
  unfolding class_from_reply
  two-Finds name class more value hn hc longer =
      let behind = class ++ (0 ∷ more) in
      let len : strlen reply.value ≡ done (length name) = rw value (strlen-name name behind hn) in
      let differs : (length name == value_length reply) ≡ false = ground (arith, longer) in
      (
        record { instance_name = reply.value; class_name = drop (length name + 1) reply.value },
        rw (len, differs, right_type, right_format) refl,
        rw value (c_string-name name behind hn),
        rw (value, drop-name_suc name behind 0) (c_string-name class more hc),
      )

  one-Finds :
      (name more : List ℕ)
      → reply.value ≡ name ++ (0 ∷ more)
      → IsName name
      → value_length reply ≡ length name
      → Finds value_length reply name []
  unfolding class_from_reply
  one-Finds name more value hn whole =
      let len : strlen reply.value ≡ done (length name) = rw value (strlen-name name more hn) in
      let same : (length name == value_length reply) ≡ true = ground (arith, whole) in
      (
        record { instance_name = reply.value; class_name = drop (length name) reply.value },
        rw (len, same, right_type, right_format) refl,
        rw value (c_string-name name more hn),
        rw (value, drop-name name (0 ∷ more)) (c_string-name [] more tt),
      )

longer :
    (value_length : PropertyReply → ℕ) (reply : PropertyReply) (name behind : List ℕ)
    → IsByteLength value_length
    → reply.format ≡ 8
    → reply.value_len ≡ length (name ++ (0 ∷ behind))
    → length name < value_length reply
longer value_length reply name behind documented f count =
    omega (arith, bytes value_length reply documented f, count, length-append name (0 ∷ behind))

tail : (name behind rest : List ℕ) → (name ++ (0 ∷ behind)) ++ rest ≡ name ++ (0 ∷ (behind ++ rest))
tail name behind rest = append_assoc name (0 ∷ behind) rest

-- What a property of class names holds, what stands in memory behind it, and the two strings.
pub data IsHeld : List ℕ → List ℕ → List ℕ → List ℕ → Type 0 where
  -- Two strings, each with its end.
  two : (name class rest : List ℕ) → IsHeld (name ++ (0 ∷ (class ++ (0 ∷ [])))) rest name class
  -- The end of the second is not in the property.
  open_end : (name class more : List ℕ) → IsHeld (name ++ (0 ∷ class)) (0 ∷ more) name class
  -- One string without its end: the second is empty.
  one : (name more : List ℕ) → IsHeld name (0 ∷ more) name []
  -- One string with its end: the second is whatever stands behind the property.
  outside :
      (name behind more : List ℕ) → IsHeld (name ++ (0 ∷ [])) (behind ++ (0 ∷ more)) name behind

-- `xcb_get_wm_class_from_reply` on a string property finds the two strings that it holds, also if the
-- second lacks its end in the property and a null character happens to follow. If there is only one string,
-- the class is empty where that string has no end in the property, a null character following; where it has,
-- the class is read from the memory behind the property.
pub class_from_reply-strings :
    (value_length : PropertyReply → ℕ) (reply : PropertyReply) (content rest name class : List ℕ)
    → IsByteLength value_length
    → reply.type ≡ string_atom
    → reply.format ≡ 8
    → reply.value_len ≡ length content
    → reply.value ≡ content ++ rest
    → IsName name
    → IsName class
    → IsHeld content rest name class
    → Finds value_length reply name class
class_from_reply-strings value_length reply content rest name class documented t f count value hn hc
      (two _ _ _) =
    two-Finds value_length reply t f name class rest
      (value
        ∙ tail name (class ++ (0 ∷ [])) rest
        ∙ ap (λ l. name ++ (0 ∷ l)) (append_assoc class (0 ∷ []) rest))
      hn hc (longer value_length reply name (class ++ (0 ∷ [])) documented f count)
class_from_reply-strings value_length reply content rest name class documented t f count value hn hc
      (open_end _ _ more) =
    two-Finds value_length reply t f name class more (value ∙ tail name class (0 ∷ more)) hn hc
      (longer value_length reply name class documented f count)
class_from_reply-strings value_length reply content rest name class documented t f count value hn hc
      (one _ more) =
    one-Finds value_length reply t f name more value hn
      (bytes value_length reply documented f ∙ count)
class_from_reply-strings value_length reply content rest name class documented t f count value hn hc
      (outside _ _ more) =
    two-Finds value_length reply t f name class more (value ∙ tail name [] (class ++ (0 ∷ more))) hn
      hc (longer value_length reply name [] documented f count)
