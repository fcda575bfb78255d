-- ===== src/Fs/Space/Numbers.antt =====
-- What `adbnc_statfs` reads from the output of `df`.
use adbncfs.Prelude.{
  ℕ, suc, ap, ◌≤◌, ◌≡◌, refl, false, some, List, [], ◌∷◌, map, arith, ltb, length, All, Text,
}
use adbncfs.Prelude.Int.{pos}
use adbncfs.Strings.Numbers.{stoul}
use adbncfs.Strings.Tokens.{tokenize}
use adbncfs.Strings.Tokens.Join.{IsWord}
use adbncfs.Strings.Tokens.Padded.{IsColumn, padded, tokens-padded}
use adbncfs.Fs.State.{ok}
use adbncfs.Fs.Attributes.{filled, assign, in_order}
use adbncfs.Fs.Stat.Lines.{blanks}
use adbncfs.Fs.Space.{Statvfs, fill_blocks, fill_inodes, df_result}

length-columns : (ps : List (Text × Text)) → length (map (λ p. p.1) ps) ≡ length ps
length-columns [] = refl
length-columns (p ∷ ps) = ap suc (length-columns ps)

module _ (name : Text) (total used free : Text × Text) (rest : List (Text × Text)) (n m : ℕ)
    (whole : IsWord blanks name) (spaced : All (IsColumn blanks) (total ∷ used ∷ free ∷ rest))
    (long : 2 ≤ length rest) (read_total : stoul total.1 ≡ some n)
    (read_free : stoul free.1 ≡ some m) where
  df_tokens :
      tokenize (padded name (total ∷ used ∷ free ∷ rest))
      ≡ name ∷ total.1 ∷ used.1 ∷ free.1 ∷ map (λ p. p.1) rest
  unfolding tokenize
  df_tokens = tokens-padded blanks name (total ∷ used ∷ free ∷ rest) whole spaced

  six : ltb (length (name ∷ total.1 ∷ used.1 ∷ free.1 ∷ map (λ p. p.1) rest)) 6 ≡ false
  six = ground (arith, length-columns rest)

  fill_blocks_lem :
      (b : Statvfs)
      → fill_blocks (name ∷ total.1 ∷ used.1 ∷ free.1 ∷ map (λ p. p.1) rest) b
        ≡ filled
            (record b { f_bsize = 4096; f_frsize = 4096; f_blocks = n; f_bfree = m; f_bavail = m })
  unfolding fill_blocks in_order assign
  fill_blocks_lem b = ground (arith, read_total, read_free)

  fill_inodes_lem :
      (b : Statvfs)
      → fill_inodes (name ∷ total.1 ∷ used.1 ∷ free.1 ∷ map (λ p. p.1) rest) b
        ≡ filled (record b { f_files = n; f_ffree = m; f_favail = m })
  unfolding fill_inodes in_order assign
  fill_inodes_lem b = ground (arith, read_total, read_free)

  -- From a header and a line of six words or more, each not empty and without blanks, with one blank
  -- or more (spaces and tabs) between two of them, of which the second and the fourth are read as
  -- numbers, `df` for blocks sets the size of a block, all blocks and the free ones, and `df` for
  -- inodes sets all inodes and the free ones; the result is 0 and the other fields stay.
  pub df_result-line :
      (header : Text) (lines : List Text) (b : Statvfs)
      → (df_result fill_blocks b (header ∷ padded name (total ∷ used ∷ free ∷ rest) ∷ lines)
          ≡ ok (
            pos 0,
            record b { f_bsize = 4096; f_frsize = 4096; f_blocks = n; f_bfree = m; f_bavail = m },
          ))
        × (df_result fill_inodes b (header ∷ padded name (total ∷ used ∷ free ∷ rest) ∷ lines)
            ≡ ok (pos 0, record b { f_files = n; f_ffree = m; f_favail = m }))
  unfolding df_result
  df_result-line header lines b =
      (rw (df_tokens, six, fill_blocks_lem b) refl, rw (df_tokens, six, fill_inodes_lem b) refl)
