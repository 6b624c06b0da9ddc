-- ===== src/Message.antt =====
-- src/vgc_message.c: which messages are printed, and how. A text is the list of its character codes.
-- What the C library gives is an argument: the last part of a file's path, the digits of a number, the
-- value of an environment variable, and the text of the format with its arguments.
pub mod Layout
use vgc_malloc.Base.{
  ℕ, zero, suc, ◌-◌, Bool, true, false, ◌&&◌, Option, none, some, List, [], ◌∷◌, ◌++◌, ◌==◌, ltb,
  leb, length, if◌then◌else◌,
}

abbrev pub Text : Type 0
Text = List ℕ

abbrev pub take : ℕ → Text → Text
take zero t = []
take (suc n) [] = []
take (suc n) (c ∷ t) = c ∷ take n t

abbrev pub drop : ℕ → Text → Text
drop zero t = t
drop (suc n) [] = []
drop (suc n) (c ∷ t) = drop n t

abbrev pub repeat : ℕ → ℕ → Text
repeat zero c = []
repeat (suc n) c = c ∷ repeat n c

-- `.`, `:`, a blank, the brackets and the end of a line.
abbrev pub dot : ℕ
dot = 46

abbrev pub colon : ℕ
colon = 58

abbrev pub blank : ℕ
blank = 32

abbrev pub newline : ℕ
newline = 10

-- The colours, from the code that starts each.
abbrev pub c_black : Text
c_black = 27 ∷ 91 ∷ 48 ∷ 109 ∷ []

abbrev pub colour : ℕ → Text
colour n = 27 ∷ 91 ∷ 48 ∷ 59 ∷ 51 ∷ n ∷ 109 ∷ []

abbrev pub c_red : Text
c_red = colour 49

abbrev pub c_green : Text
c_green = colour 50

abbrev pub c_blue : Text
c_blue = colour 52

-- A text pointer; `none` is null.
abbrev pub or_empty : Option Text → Text
or_empty none = []
or_empty (some t) = t

-- `Type`
pub data Column : Type 0 where
  type_function type_title type_subtitle : Column

-- The number of dots of a column.
abbrev pub dots_of : Column → ℕ
dots_of type_function = 22
dots_of type_title = 28
dots_of type_subtitle = 29

abbrev pub filler : Column → Text
filler c = repeat (dots_of c) dot ++ colon ∷ blank ∷ []

abbrev is_unfilled : Column → Option Text → Bool
is_unfilled type_subtitle (some []) = true
is_unfilled _ _ = false

unfoldable pub dots : Text → Column → Option Text → Text
dots string c status =
    let d = filler c in
    let n = if leb (length d) (length string) then length d - 2 else length string in
    if is_unfilled c status then [] else drop n d

unfoldable pub spaces : Option Text → Text
spaces none = repeat 13 blank
spaces (some string) =
    let n = if ltb 12 (length string) then 12 else length string in
    drop (if ltb 13 n then 13 else n) (repeat 13 blank)

unfoldable pub spaces2 : Option Text → Text
spaces2 none = repeat 24 dot
spaces2 (some string) = drop (if ltb 24 (length string) then 24 else length string) (repeat 24 dot)

-- The dots behind a line's number.
abbrev pub line_dots : ℕ → Text
line_dots n =
    if ltb n 10
    then repeat 3 dot
    else (if ltb n 100 then repeat 2 dot else (if ltb n 1000 then repeat 1 dot else []))

-- A column that is left out where its text is null.
abbrev pub column : ℕ → Column → Option Text → Option Text → Text
column width c none status = []
column width c (some t) status = take width t ++ dots t c status

-- What `vgc_message` is called with: `base` is the last part of the path, `digits` those of the line's
-- number, and `body` the text of the format with its arguments.
pub record Call : Type 0 where
  pub level : ℕ
  pub base : Text
  pub line : ℕ
  pub digits : Text
  pub module_name : Text
  pub function_name : Option Text
  pub title : Option Text
  pub subtitle : Option Text
  pub status : Option Text
  pub body : Option Text

-- The name of the module in brackets.
abbrev pub module_column : Text → Text → Text
module_column [] color2 = []
module_column name color2 = color2 ++ 91 ∷ (take 12 name ++ color2 ++ 93 ∷ spaces (some name))

-- The text that message prints into the buffer, unbounded.
unfoldable pub message_text : Call → Text → Text → Text → Text
unfolding dots spaces spaces2
message_text c color1 color2 color3 =
    color1
    ++ take 30 c.base
    ++ colon
      ∷ (c.digits
          ++ spaces2 (some c.base)
          ++ line_dots c.line
          ++ colon
            ∷ blank
            ∷ (column 22 type_function c.function_name c.status
                ++ column 28 type_title c.title c.status
                ++ module_column c.module_name color2
                ++ color3
                ++ or_empty c.subtitle
                ++ (elim c.subtitle [ none ↦ [] | some t ↦ dots t type_subtitle c.status ])
                ++ or_empty c.status))

-- The call without its names, for the level 0.
abbrev pub without_header : Call → Call
without_header c =
    if c.level == 0 then record c { module_name = []; function_name = none; title = none } else c

-- `snprintf` into `size` bytes: the text without its terminator.
abbrev pub snprintf : ℕ → Text → Text
snprintf size t = take (size - 1) t

abbrev pub buffer_size : ℕ
buffer_size = 2048

-- The header of the call in its colours.
unfoldable pub coloured : Call → Text
unfolding message_text
coloured c =
    let red = c.level == 1 in
    message_text (without_header c) (if red then c_red else c_black)
      (if red then c_red else c_green) (if red then c_red else c_blue)

-- The buffer after both prints.
unfoldable pub fill_buffer : Text → Option Text → Text
fill_buffer head none = snprintf buffer_size head
fill_buffer head (some body) =
    let buf = snprintf buffer_size head in
    if ltb (length head) buffer_size
    then take (length head) buf ++ snprintf (buffer_size - length head) body
    else buf

-- `messageLevel`, an int.
pub data Level : Type 0 where
  pos negsuc : ℕ → Level

abbrev pub below : Level → ℕ → Bool
below (pos n) level = ltb n level
below (negsuc n) level = true

-- vgc_message: what it prints, if it prints
unfoldable pub vgc_message : Level → Call → Option Text
unfolding coloured fill_buffer
vgc_message message_level c =
    if below message_level c.level
    then none
    else some (fill_buffer (coloured c) c.body ++ c_black ++ newline ∷ [])

-- vgc_messageInit, with the value of VGC_MESSAGE_LEVEL and what strtol and the cast make of a text. The
-- test of errno follows its reset.
unfoldable pub message_init : (Text → Level) → Option Text → Level
message_init strtol none = pos 1
message_init strtol (some level) = strtol level
