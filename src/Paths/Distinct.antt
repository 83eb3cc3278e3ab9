-- ===== src/Paths/Distinct.antt =====
-- The log files of one service have different paths.
use frequent_cron.Base.{
  ℕ, ◌≡◌, ◌≢◌, inl, inr, sym, ◌∙◌, String, ◌<>◌, ◌||◌, arith, ◌==◌, string_eq, nat_eq, Bool-cases,
}
use frequent_cron.Base.Int.{ℤ, pos}
use Prim.Native.Char.{Char, code}
use text.Mathlib.TextLemmas.{nil≢cons, nil-append, cons-append, append_assoc, append_cancel_left}
use frequent_cron.Base.Decimal.{to_string, decimal, decimal-injective}
use frequent_cron.Paths.{is_absolute, ends_slash, ◌//◌, log_file, rotated_file}

pub is_absolute-cons :
    (c : Char) (s t : String) → is_absolute (String.◌∷◌ c s <> t) ≡ (code c == b'/')
unfolding is_absolute
is_absolute-cons c s t = rw cons-append

-- A name decides whether the paths that are made of it are absolute.
is_absolute-same :
    (name s t : String) → is_absolute (name <> (".log" <> s)) ≡ is_absolute (name <> (".log" <> t))
is_absolute-same String.[] s t =
    rw (nil-append, nil-append) (is_absolute-cons "." "log" s ∙ sym (is_absolute-cons "." "log" t))
is_absolute-same (String.◌∷◌ c name) s t =
    is_absolute-cons c name _ ∙ sym (is_absolute-cons c name _)

pub join-injective : (p q r : String) → is_absolute q ≡ is_absolute r → p // q ≡ p // r → q ≡ r
unfolding ◌//◌
join-injective p q r same h = elim (Bool-cases (is_absolute r)) [
  | inl absolute ↦ ground arith
  | inr relative ↦ elim (Bool-cases (p == "" || ends_slash p)) [
    | inl bare ↦ append_cancel_left p q r (rw (same ∙ relative, relative, bare) at h)
    | inr more ↦
        append_cancel_left "/" q r
          (append_cancel_left p ("/" <> q) ("/" <> r) (rw (same ∙ relative, relative, more) at h))
  ]
]

-- Texts that begin with the same character that is not a slash are relative.
pub leads_apart :
    (p : String) (c : Char) (lead s t : String)
    → p // (String.◌∷◌ c lead <> s) ≡ p // (String.◌∷◌ c lead <> t)
    → s ≡ t
leads_apart p c lead s t h =
    append_cancel_left (String.◌∷◌ c lead) s t
      (join-injective p _ _ (is_absolute-cons c lead s ∙ sym (is_absolute-cons c lead t)) h)

name-injective : (name s t : String) → name <> (".log" <> s) ≡ name <> (".log" <> t) → s ≡ t
name-injective name s t h =
    append_cancel_left ".log" s t (append_cancel_left name (".log" <> s) (".log" <> t) h)

suffixes :
    (dir name s t : String)
    → dir // (name <> (".log" <> s)) ≡ dir // (name <> (".log" <> t))
    → s ≡ t
suffixes dir name s t h =
    name-injective name s t (join-injective dir _ _ (is_absolute-same name s t) h)

-- ".log." <> s is ".log" <> ("." <> s), and ".log" is ".log" <> "".
dotted : (s : String) → ".log." <> s ≡ ".log" <> ("." <> s)
dotted s = append_assoc ".log" "." s

pub rotated_file-injective :
    (dir name : String) (i j : ℕ)
    → rotated_file dir name (pos i) ≡ rotated_file dir name (pos j)
    → i ≡ j
unfolding rotated_file to_string
rotated_file-injective dir name i j h = decimal-injective i j (
    append_cancel_left "." (decimal i) (decimal j)
      (suffixes dir name ("." <> decimal i) ("." <> decimal j) (rw (dotted, dotted) at h)))

pub log_file≢rotated_file :
    (dir name : String) (i : ℤ) → log_file dir name ≢ rotated_file dir name i
unfolding log_file rotated_file
log_file≢rotated_file dir name i h =
    let dot : ◌≡◌ {A = String} "" ("." <> to_string i) =
      suffixes dir name "" ("." <> to_string i) (rw dotted at h) in
    nil≢cons (dot ∙ cons-append "." "" (to_string i))
