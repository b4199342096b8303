-- ===== src/KeyboardHandler/Flags.antt =====
-- What a scan code does to the flags of the terminals.
use os.Prelude.{
  ℕ, ◌+◌, ◌-◌, ◌≡◌, ◌⊎◌, inl, refl, arith, Bool, true, false, ◌∙◌, ltb, leb, ◌==◌, ◌&&◌,
  if◌then◌else◌, update,
}
use os.Screen.{Screen}
use os.Keyboard.{
  Keyboard, Request, no_request, start_shell, on_scan_code, alt_key, commit_line, erase, type_key,
  press, enter, backspace, caps_lock, key_l, left_ctrl, left_alt, max_key_ind,
}

if-holds : {A : Type 0} (P : A → Type 0) (b : Bool) {x y : A} → P x → P y → P (if b then x else y)
if-holds P true p q = p
if-holds P false p q = q

-- The flags of the terminals are the same.
pub record KeepsFlags (k k' : Keyboard) : Type 0 where
  pub two : k'.terminal_2_running ≡ k.terminal_2_running
  pub three : k'.terminal_3_running ≡ k.terminal_3_running

-- What may be asked for: a shell of a terminal whose flag is down.
abbrev pub Asks : Keyboard → Request → Type 0
Asks k r =
    (r ≡ no_request)
    ⊎ ((r ≡ start_shell 1) × (k.terminal_2_running ≡ 0))
    ⊎ ((r ≡ start_shell 2) × (k.terminal_3_running ≡ 0))

type_key-KeepsFlags :
    (input t : ℕ) (k : Keyboard) (s : Screen) → KeepsFlags k (type_key input t k s).0
unfolding type_key
type_key-KeepsFlags input t k s =
    if-holds {A = Keyboard × Screen} (λ r. KeepsFlags k r.0)
      (leb (max_key_ind + 1) (k.cursor_ind t)) (record { two = refl; three = refl })
      (record { two = refl; three = refl })

erase-KeepsFlags : (t : ℕ) (k : Keyboard) (s : Screen) → KeepsFlags k (erase t k s).0
unfolding erase
erase-KeepsFlags t k s =
    if-holds {A = Keyboard × Screen} (λ r. KeepsFlags k r.0) (k.cursor_ind t == 0)
      (record { two = refl; three = refl }) (record { two = refl; three = refl })

commit_line-KeepsFlags : (t : ℕ) (k : Keyboard) → KeepsFlags k (commit_line t k)
unfolding commit_line
commit_line-KeepsFlags t k = record { two = refl; three = refl }

alt_key-Asks : (input : ℕ) (k : Keyboard) (s : Screen) → Asks k (alt_key input k s).1
unfolding alt_key
alt_key-Asks input k s = ground arith

-- What a key that goes down leaves and asks for.
abbrev pub Pressed : Keyboard → Keyboard × Screen × Request → Type 0
Pressed k r = KeepsFlags k r.0 × Asks k r.2

press-Pressed : (input t : ℕ) (k : Keyboard) (s : Screen) → Pressed k (press input t k s)
unfolding press
press-Pressed input t k s =
    let down : Keyboard = record k {
      pressed_key = update k.pressed_key input 1;
      cap_status = if input == caps_lock then 1 - k.cap_status else k.cap_status;
    } in
    let same : KeepsFlags k down = record { two = refl; three = refl } in
    let typed = type_key-KeepsFlags input t down s in
    if-holds (Pressed k) (input == key_l && down.pressed_key left_ctrl == 1)
      (record { two = refl; three = refl }, inl refl)
      (if-holds (Pressed k) (down.pressed_key left_alt == 1) (same, alt_key-Asks input down s)
        (if-holds (Pressed k) (down.scan_code input == 0) (same, inl refl)
          (record { two = typed.two; three = typed.three }, inl refl)))

KeepsFlags-trans : {k k' k'' : Keyboard} → KeepsFlags k k' → KeepsFlags k' k'' → KeepsFlags k k''
KeepsFlags-trans u v = record { two = v.two ∙ u.two; three = v.three ∙ u.three }

KeepsFlags-refl : (k : Keyboard) → KeepsFlags k k
KeepsFlags-refl k = record { two = refl; three = refl }

-- What one scan code asks for, and what it leaves of the flags of the terminals.
pub on_scan_code_lem : (input : ℕ) (k : Keyboard) (s : Screen) → Pressed k (on_scan_code input k s)
unfolding on_scan_code
on_scan_code_lem input k s =
    let t = s.display_terminal in
    let r =
      if◌then◌else◌ {A = Keyboard × Screen × Request} (ltb max_key_ind input)
        (record k { pressed_key = update k.pressed_key (input - 128) 0 }, s, no_request)
        (press input t k s) in
    let pressed : Pressed k r =
      if-holds (Pressed k) (ltb max_key_ind input) (record { two = refl; three = refl }, inl refl)
        (press-Pressed input t k s) in
    let k2 = if input == enter then commit_line t r.0 else r.0 in
    let committed : KeepsFlags r.0 k2 =
      if-holds (KeepsFlags r.0) (input == enter) (commit_line-KeepsFlags t r.0)
        (KeepsFlags-refl r.0) in
    let erased =
      if-holds {A = Keyboard × Screen} (λ e. KeepsFlags k2 e.0) (input == backspace)
        (erase-KeepsFlags t k2 r.1) (KeepsFlags-refl k2) in
    (KeepsFlags-trans pressed.0 (KeepsFlags-trans committed erased), pressed.1)
