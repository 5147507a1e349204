-- ===== src/Example/Output.antt =====
-- example-libp.c: what the lines of the output tell, the newest of which stands first.
use libp.Base.{
  ℕ, ◌+◌, ◌≡◌, ◌∙◌, refl, sym, ap, arith, Bool-cases, ==_iff, ==_refl, ◌==◌, inl, inr, List, [],
  ◌∷◌, ◌++◌, erase, if◌then◌else◌, true, false,
}
use libp.Contiki.{Contiki}
use libp.Rime.{Rime}
use libp.Conn.{Effect, deliver}
use libp.Example.{lines_of}
use libp.Example.Lines.{Line, sending, link_lost, link_found, low, link_lines}

-- The links that are drawn, by the first byte of the parent; the newest line stands first.
unfoldable pub links : List Line → List ℕ
links [] = []
links (link_found a ∷ ls) = a ∷ links ls
links (link_lost a ∷ ls) = erase a (links ls)
links (_ ∷ ls) = links ls

-- The link to `a` alone, or none if it is the null address.
abbrev pub shown : ℕ → List ℕ
shown a = if a == 0 then [] else low a ∷ []

shown_null : (a : ℕ) → (a == 0) ≡ true → shown a ≡ []
shown_null a e = rw e refl

shown_other : (a : ℕ) → (a == 0) ≡ false → shown a ≡ low a ∷ []
shown_other a e = rw e refl

erased : (a : ℕ) (ls : List Line) → links ls ≡ low a ∷ [] → erase (low a) (links ls) ≡ []
erased a ls e = ap (erase (low a)) e ∙ rw (==_refl (low a)) refl

links-changed :
    (old new : ℕ) (ls : List Line)
    → (new == old) ≡ false
    → links ls ≡ shown old
    → links (link_lines old new ++ ls) ≡ shown new
unfolding links
links-changed old new ls differ e = elim (Bool-cases (old == 0)) [
  | inl o ↦ elim (Bool-cases (new == 0)) [
    | inl n ↦ absurd (ground arith)
    | inr n ↦ rw (link_lines, differ, o, n) (ap (λ x. low new ∷ x) (e ∙ shown_null old o))
  ]
  | inr o ↦ elim (Bool-cases (new == 0)) [
    | inl n ↦ rw (link_lines, differ, o, n) (erased old ls (e ∙ shown_other old o))
    | inr n ↦
        rw (link_lines, differ, o, n)
          (ap (λ x. low new ∷ x) (erased old ls (e ∙ shown_other old o)))
  ]
]

pub links-link_lines :
    (old new : ℕ) (ls : List Line)
    → links ls ≡ shown old
    → links (link_lines old new ++ ls) ≡ shown new
links-link_lines old new ls e = elim (Bool-cases (new == old)) [
  | inl same ↦ rw (link_lines, same) (e ∙ ap shown (sym ((==_iff new old).0 same)))
  | inr differ ↦ links-changed old new ls differ e
]

-- How often the process has sent.
unfoldable pub sendings : List Line → ℕ
sendings [] = 0
sendings (sending ∷ ls) = sendings ls + 1
sendings (_ ∷ ls) = sendings ls

pub sendings-link_lines :
    (old new : ℕ) (ls : List Line) → sendings (link_lines old new ++ ls) ≡ sendings ls
unfolding sendings
sendings-link_lines old new ls = ground arith

module _ ⦃os : Contiki⦄ ⦃rime : Rime⦄ where
  pub links-lines_of :
      (b : rime.Buf) (es : List Effect) (ls : List Line) → links (lines_of b es ++ ls) ≡ links ls
  unfolding links lines_of
  links-lines_of b [] ls = refl
  links-lines_of b (deliver o s h ∷ es) ls = links-lines_of b es ls
  links-lines_of b (_ ∷ es) ls = links-lines_of b es ls

  pub sendings-lines_of :
      (b : rime.Buf) (es : List Effect) (ls : List Line)
      → sendings (lines_of b es ++ ls) ≡ sendings ls
  unfolding sendings lines_of
  sendings-lines_of b [] ls = refl
  sendings-lines_of b (deliver o s h ∷ es) ls = sendings-lines_of b es ls
  sendings-lines_of b (_ ∷ es) ls = sendings-lines_of b es ls
