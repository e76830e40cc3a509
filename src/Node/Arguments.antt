-- ===== src/Node/Arguments.antt =====
-- The arguments of the program of a node, and the volume that it starts on (src/server_main.cpp,
-- `parse_args` and `main`).
use chained_block_storage.Base.{
  ℕ, ◌≡◌, refl, ◌∙◌, Bool, true, false, ◌&&◌, Option, none, some, List, [], ◌∷◌, ◌++◌, ◌==◌,
  if◌then◌else◌,
}
use chained_block_storage.Tables.Int.{ℤ}
use chained_block_storage.AtomicStorage.State.{File, Volume}
use chained_block_storage.AtomicStorage.Open.{init_volume, open_volume}

-- The globals that the arguments set.
pub record Arguments : Type 0 where
  pub master_ip : List ℕ
  pub my_port : ℤ
  pub my_ip : List ℕ
  pub start_clean : Bool
  pub volume_name : List ℕ

-- How `parse_args` ends: it returns 0, it returns -1 after the usage, `stoi` throws, or a string is made of
-- the null pointer at the end of `argv`.
pub data Parsed : Type 0 where
  parsed : Arguments → Parsed
  usage stoi_throws null_string : Parsed

pub data Name : Type 0 where
  master_name port_name ip_name clean_name v_name : Name

unfoldable pub same_text : List ℕ → List ℕ → Bool
same_text [] [] = true
same_text [] (b ∷ bs) = false
same_text (a ∷ xs) [] = false
same_text (a ∷ xs) (b ∷ bs) = a == b && same_text xs bs

abbrev pub text_of : Name → List ℕ
text_of master_name = b'-' ∷ b'm' ∷ b'a' ∷ b's' ∷ b't' ∷ b'e' ∷ b'r' ∷ []
text_of port_name = b'-' ∷ b'p' ∷ b'o' ∷ b'r' ∷ b't' ∷ []
text_of ip_name = b'-' ∷ b'i' ∷ b'p' ∷ []
text_of clean_name = b'-' ∷ b'c' ∷ b'l' ∷ b'e' ∷ b'a' ∷ b'n' ∷ []
text_of v_name = b'-' ∷ b'v' ∷ []

-- The chain of comparisons of `argx`.
unfoldable pub name_of : List ℕ → Option Name
unfolding same_text
name_of argx =
    if same_text argx (text_of master_name)
    then some master_name
    else if same_text argx (text_of port_name)
    then some port_name
    else if same_text argx (text_of ip_name)
    then some ip_name
    else if same_text argx (text_of clean_name)
    then some clean_name
    else if same_text argx (text_of v_name)
    then some v_name
    else none

-- The end of the loop.
unfoldable pub checked : Arguments → Parsed
unfolding same_text
checked a = if same_text a.master_ip [] then usage else parsed a

-- The loop, over the arguments from `arg` on; `stoi` is none where it throws.
module _ (stoi : List ℕ → Option ℤ) where
  unfoldable pub parse_args : List (List ℕ) → Arguments → Parsed
  unfolding name_of checked
  parse_args [] a = checked a
  parse_args (argx ∷ []) a = elim (name_of argx) [
    | none ↦ usage
    | some clean_name ↦ checked (record a { start_clean = true })
    | some master_name ↦ null_string
    | some port_name ↦ null_string
    | some ip_name ↦ null_string
    | some v_name ↦ null_string
  ]
  parse_args (argx ∷ value ∷ rest) a = elim (name_of argx) [
    | none ↦ usage
    | some clean_name ↦ parse_args (value ∷ rest) (record a { start_clean = true })
    | some master_name ↦ parse_args rest (record a { master_ip = value })
    | some port_name ↦ elim (stoi value) [
      | none ↦ stoi_throws
      | some n ↦ parse_args rest (record a { my_port = n })
    ]
    | some ip_name ↦ parse_args rest (record a { my_ip = value })
    | some v_name ↦ parse_args rest (record a { volume_name = value })
  ]

-- The volume of `main`, on a file of `size` bytes.
unfoldable pub main_volume : Arguments → Volume → File → ℕ → Volume
unfolding init_volume open_volume
main_volume a v file size =
    if a.start_clean then init_volume v file size else open_volume v file size

-- An option of the command line.
pub data Setting : Type 0 where
  sets_master sets_ip sets_volume : List ℕ → Setting
  sets_port : ℤ → Setting
  sets_clean : Setting

abbrev pub set : Setting → Arguments → Arguments
set (sets_master text) a = record a { master_ip = text }
set (sets_ip text) a = record a { my_ip = text }
set (sets_volume text) a = record a { volume_name = text }
set (sets_port n) a = record a { my_port = n }
set sets_clean a = record a { start_clean = true }

abbrev pub set_all : List Setting → Arguments → Arguments
set_all [] a = a
set_all (s ∷ ss) a = set_all ss (set s a)

module _ (stoi : List ℕ → Option ℤ) (to_text : ℤ → List ℕ)
    (stoi-to_text : (n : ℤ) → stoi (to_text n) ≡ some n) where
  abbrev pub words : List Setting → List (List ℕ)
  words [] = []
  words (sets_master text ∷ ss) = text_of master_name ∷ text ∷ words ss
  words (sets_ip text ∷ ss) = text_of ip_name ∷ text ∷ words ss
  words (sets_volume text ∷ ss) = text_of v_name ∷ text ∷ words ss
  words (sets_port n ∷ ss) = text_of port_name ∷ to_text n ∷ words ss
  words (sets_clean ∷ ss) = text_of clean_name ∷ words ss

  parse_clean :
      (rest : List (List ℕ)) (a : Arguments)
      → parse_args stoi (text_of clean_name ∷ rest) a
        ≡ parse_args stoi rest (record a { start_clean = true })
  unfolding parse_args
  parse_clean [] a = refl
  parse_clean (x ∷ rest) a = refl

  -- Options of the command line, in any order and number, are set one after the other, the last of a kind
  -- counts, and the rest is read as if it stood alone; where `stoi` reads back the texts of the ports.
  parse_args-words :
      (ss : List Setting) (more : List (List ℕ)) (a : Arguments)
      → parse_args stoi (words ss ++ more) a ≡ parse_args stoi more (set_all ss a)
  unfolding parse_args
  parse_args-words [] more a = refl
  parse_args-words (sets_master text ∷ ss) more a =
      parse_args-words ss more (record a { master_ip = text })
  parse_args-words (sets_ip text ∷ ss) more a = parse_args-words ss more (record a { my_ip = text })
  parse_args-words (sets_volume text ∷ ss) more a =
      parse_args-words ss more (record a { volume_name = text })
  parse_args-words (sets_port n ∷ ss) more a =
      rw (stoi-to_text n) (parse_args-words ss more (record a { my_port = n }))
  parse_args-words (sets_clean ∷ ss) more a =
      parse_clean (words ss ++ more) a ∙ parse_args-words ss more (record a { start_clean = true })
