-- ===== src/Receipt/Appends.antt =====
-- What the steps of drawing add to the paper.
use Prim.Native.String.{◌++◌ as append_text}
use mathlib.Core.List.{append_assoc}
use resaprint.Base.{
  ℕ, ◌≡◌, refl, sym, ◌∙◌, ap, Bool, true, false, Option, none, some, String, List, [], ◌∷◌, ◌++◌,
  Bool-cases, inl, inr,
}
use resaprint.Escpos.{ReceiptBuilder, line, kv_line, divider, emit, bold, encode_line, padded_value}
use resaprint.Receipt.Draw.{
  Receipt, Draw, ◌⨾◌, skip, draw_if, draw_some, draw_each, on_paper, note, write, entry, rule,
  rule_on_paper,
}

-- The step adds bytes behind the buffer and leaves the codepage alone.
pub record Appends (d : Draw) : Type 0 where
  pub bytes :
      (r : Receipt)
      → (added : List ℕ) × ((d r).builder.buf ≡ r.builder.buf ++ added)
        × ((d r).builder.codepage ≡ r.builder.codepage)

nil_right : (xs : List ℕ) → xs ++ [] ≡ xs
nil_right [] = refl
nil_right (x ∷ xs) = ap (λ ys. x ∷ ys) (nil_right xs)

pub Appends-skip : Appends skip
Appends-skip = record { bytes = λ r. ([], sym (nil_right r.builder.buf), refl) }

pub Appends-then : {d e : Draw} → Appends d → Appends e → Appends (d ⨾ e)
Appends-then {d} {e} p q = record {
  bytes = λ r.
      let (a, ha, ca) = p.bytes r in
      let (b, hb, cb) = q.bytes (d r) in
      (a ++ b, hb ∙ ap (λ xs. xs ++ b) ha ∙ append_assoc r.builder.buf a b, cb ∙ ca);
}

pub Appends-if : (b : Bool) {d : Draw} → Appends d → Appends (draw_if b d)
Appends-if true p = p
Appends-if false p = Appends-skip

pub Appends-some :
    {A : Type 0} (o : Option A) {d : A → Draw} → ((a : A) → Appends (d a)) → Appends (draw_some o d)
Appends-some none p = Appends-skip
Appends-some (some a) p = p a

pub Appends-each :
    {A : Type 0} (xs : List A) {d : A → Draw} → ((a : A) → Appends (d a)) → Appends (draw_each d xs)
unfolding draw_each
Appends-each [] p = Appends-skip
Appends-each (x ∷ xs) p = Appends-then (p x) (Appends-each xs p)

pub Appends-note : (text : String) → Appends (note text)
Appends-note text = record { bytes = λ r. ([], sym (nil_right r.builder.buf), refl) }

module _ (encode : String → String → List ℕ) (width : ℕ) where
  pub Appends-emit : (f : ReceiptBuilder → List ℕ) → Appends (on_paper (λ b. emit encode (f b) b))
  Appends-emit f = record { bytes = λ r. (f r.builder, refl, refl) }

  pub Appends-write : (text : String) → Appends (write encode width text)
  unfolding write line
  Appends-write text =
      Appends-then (Appends-emit (λ b. encode_line encode text b.codepage)) (Appends-note text)

  pub Appends-rule_on_paper : Appends (rule_on_paper encode width)
  unfolding rule_on_paper divider
  Appends-rule_on_paper = record { bytes = λ r. (_, refl, refl) }

  pub Appends-rule : Appends (rule encode width)
  unfolding rule divider
  Appends-rule = record { bytes = λ r. (_, refl, refl) }

  pub Appends-entry : (label value : String) → Appends (entry encode width label value)
  unfolding entry kv_line
  Appends-entry label value = record {
    bytes = λ r. elim (Bool-cases r.builder.bold_labels) [
      | inl t ↦
          let b = r.builder in
          let (added, e) =
            behind b.buf (bold true) (encode b.codepage label) (bold false)
              (encode b.codepage (append_text (padded_value width label value) "\n")) in
          (added, rw t e, rw t refl)
      | inr f ↦ (
        encode_line encode (append_text label (padded_value width label value)) r.builder.codepage,
        rw f refl,
        rw f refl,
      )
    ];
  }
    where
      behind : (xs a b c d : List ℕ) → (added : List ℕ) × (xs ++ a ++ b ++ c ++ d ≡ xs ++ added)
      behind xs a b c d = (
        a ++ b ++ c ++ d,
        rw
            (
              append_assoc (xs ++ a ++ b) c d,
              append_assoc (xs ++ a) b (c ++ d),
              append_assoc xs a (b ++ (c ++ d)),
              append_assoc (a ++ b) c d,
              append_assoc a b (c ++ d),
            )
            refl,
      )
