-- ===== src/Elf/Accept.antt =====
-- Which files `read_elf` accepts, and the image that it makes of them.
use friscv_soc.Common.{
  ℕ, zero, suc, ◌+◌, ◌-◌, ◌*◌, ◌≡◌, refl, ap, ◌∙◌, Bool, true, false, not, ◌&&◌, ◌||◌, List, [],
  ◌∷◌, ◌++◌, Option, none, some, leb, ◌==◌, if◌then◌else◌, arith,
}
use friscv_soc.Common.Arrays.{length, replicate, get_or, take, drop}
use friscv_soc.Common.Results.{Result, ok, thrown}
use friscv_soc.Common.Fallible.{
  ◌>>=◌, ◌>>◌, guard, accepted, when, mapped, accepted-guard, accepted-map,
}
use friscv_soc.Elf.{
  ElfHeader, Ehdr, Phdr, ElfSegment, ElfImage, in_file, check_range, read_at, validate,
  read_segment, read_segments, read_elf, is_empty,
}

in_file_lem :
    (offset size file_size : ℕ) → in_file offset size file_size ≡ leb (offset + size) file_size
unfolding in_file
in_file_lem offset size file_size = ground arith

-- A structure that lies in the file is decoded.
accepted-read_at :
    {T B : Type 0}
    → (decode : List ℕ → T) (size : ℕ) (file : List ℕ) (offset : ℕ) (k : T → Result B)
    → accepted (read_at decode size file offset >>= k)
      ≡ when
          (leb (offset + size) (length file))
          (accepted (k (decode (take size (drop offset file)))))
unfolding read_at check_range
accepted-read_at decode size file offset k =
    guarded (in_file offset size (length file))
    ∙ ap (λ b. when b (accepted (k (decode (take size (drop offset file))))))
        (in_file_lem offset size (length file))
  where
    guarded :
        (b : Bool)
        → accepted ((guard b "truncated ELF" >> ok (decode (take size (drop offset file)))) >>= k)
          ≡ when b (accepted (k (decode (take size (drop offset file)))))
    guarded true = refl
    guarded false = refl

module _ (elf : ElfHeader) (file : List ℕ) where
  abbrev pub ehdr_of : Ehdr
  ehdr_of = elf.ehdr (take elf.ehdr_size file)

  -- The program header `i`, and where it is.
  abbrev pub phdr_offset : Ehdr → ℕ → ℕ
  phdr_offset h i = h.e_phoff + i * h.e_phentsize

  abbrev pub phdr_of : Ehdr → ℕ → Phdr
  phdr_of h i = elf.phdr (take elf.phdr_size (drop (phdr_offset h i) file))

  abbrev pub is_loaded : Phdr → Bool
  is_loaded p = (p.p_type == elf.pt_load) && not (p.p_memsz == 0)

  -- The contents of a segment are in the file, and not longer than the segment.
  abbrev pub in_bounds : Phdr → Bool
  in_bounds p = leb p.p_filesz p.p_memsz && leb (p.p_offset + p.p_filesz) (length file)

  -- A segment: its contents and then zeros.
  abbrev pub segment_of : Phdr → ElfSegment
  segment_of p = record {
    address = p.p_paddr;
    executable = elf.is_executable p.p_flags;
    bytes = take p.p_filesz (drop p.p_offset file) ++ replicate (p.p_memsz - p.p_filesz) 0;
  }

  -- The headers from `i` on, `n` of them, lie in the file and so does what they load.
  unfoldable pub headers_ok : Ehdr → ℕ → ℕ → Bool
  headers_ok h zero i = true
  headers_ok h (suc n) i =
      leb (phdr_offset h i + elf.phdr_size) (length file)
      && ((not (is_loaded (phdr_of h i)) || in_bounds (phdr_of h i)) && headers_ok h n (i + 1))

  unfoldable pub segments_of : Ehdr → ℕ → ℕ → List ElfSegment
  segments_of h zero i = []
  segments_of h (suc n) i =
      if is_loaded (phdr_of h i)
      then segment_of (phdr_of h i) ∷ segments_of h n (i + 1)
      else segments_of h n (i + 1)

  accepted-read_segment :
      {B : Type 0}
      → (p : Phdr) (k : ElfSegment → Result B)
      → accepted (read_segment elf file p >>= k) ≡ when (in_bounds p) (accepted (k (segment_of p)))
  unfolding read_segment check_range
  accepted-read_segment p k =
      guarded (leb p.p_filesz p.p_memsz) (in_file p.p_offset p.p_filesz (length file))
      ∙ ap (λ b. when (leb p.p_filesz p.p_memsz && b) (accepted (k (segment_of p))))
          (in_file_lem p.p_offset p.p_filesz (length file))
    where
      guarded :
          (a b : Bool)
          → accepted (
              (guard a "invalid ELF segment size" >> (guard b "truncated ELF" >> ok (segment_of p)))
              >>= k)
            ≡ when (a && b) (accepted (k (segment_of p)))
      guarded true true = refl
      guarded true false = refl
      guarded false b = refl

  accepted-loaded :
      (b : Bool) (p : Phdr) (rest : Result (List ElfSegment))
      → accepted (elim b [
        | true ↦ read_segment elf file p >>= λ segment. rest >>= λ more. ok (segment ∷ more)
        | false ↦ rest
      ])
        ≡ (if b
            then when (in_bounds p) (mapped (λ more. segment_of p ∷ more) (accepted rest))
            else accepted rest)
  accepted-loaded true p rest =
      accepted-read_segment p (λ segment. rest >>= λ more. ok (segment ∷ more))
      ∙ ap (when (in_bounds p)) (accepted-map rest (λ more. segment_of p ∷ more))
  accepted-loaded false p rest = refl

  -- The conditions of a header joined with those of the rest.
  joined :
      (fits loaded inside more : Bool) (s : ElfSegment) (segments : List ElfSegment)
      → when fits (
          if loaded
          then when inside (mapped (λ rest. s ∷ rest) (when more (some segments)))
          else when more (some segments))
        ≡ when
            (fits && ((not loaded || inside) && more))
            (some (if loaded then s ∷ segments else segments))
  joined false loaded inside more s segments = refl
  joined true true true true s segments = refl
  joined true true true false s segments = refl
  joined true true false more s segments = refl
  joined true false inside true s segments = refl
  joined true false inside false s segments = refl

  accepted-read_segments :
      (n i : ℕ) (h : Ehdr)
      → accepted (read_segments elf n i h file) ≡ when (headers_ok h n i) (some (segments_of h n i))
  unfolding read_segments headers_ok segments_of
  accepted-read_segments zero i h = refl
  accepted-read_segments (suc n) i h =
      let p = phdr_of h i in
      let fits = leb (phdr_offset h i + elf.phdr_size) (length file) in
      let rest = read_segments elf n (i + 1) h file in
      accepted-read_at elf.phdr elf.phdr_size file (phdr_offset h i) (λ program.
        elim (is_loaded program) [
          | true ↦ read_segment elf file program >>= λ segment. rest >>= λ more. ok (segment ∷ more)
          | false ↦ rest
        ])
      ∙ ap (when fits) (accepted-loaded (is_loaded p) p rest)
      ∙ ap
          (λ o. when fits (
            if is_loaded p then when (in_bounds p) (mapped (λ more. segment_of p ∷ more) o) else o))
          (accepted-read_segments n (i + 1) h)
      ∙ joined fits (is_loaded p) (in_bounds p) (headers_ok h n (i + 1)) (segment_of p)
          (segments_of h n (i + 1))

  -- The file starts with the header of a 32-bit little-endian ELF file, whose program headers have
  -- the size that the reader needs.
  abbrev pub ident_ok : Ehdr → Bool
  ident_ok h =
      elf.has_magic h.e_ident
      && ((get_or h.e_ident elf.ei_class 0 == elf.elfclass32)
          && ((get_or h.e_ident elf.ei_data 0 == elf.elfdata2lsb)
              && leb elf.phdr_size h.e_phentsize))

  accepted-validate :
      {B : Type 0}
      → (h : Ehdr) (k : Result B) → accepted (validate elf h >> k) ≡ when (ident_ok h) (accepted k)
  unfolding validate
  accepted-validate h k =
      guarded (elf.has_magic h.e_ident) (get_or h.e_ident elf.ei_class 0 == elf.elfclass32)
        (get_or h.e_ident elf.ei_data 0 == elf.elfdata2lsb) (leb elf.phdr_size h.e_phentsize)
    where
      guarded :
          (a b c d : Bool)
          → accepted (
              (guard a "not an ELF"
                >> (guard b "not ELF32"
                    >> (guard c "not little-endian" >> guard d "invalid ELF program header")))
              >> k)
            ≡ when (a && (b && (c && d))) (accepted k)
      guarded false b c d = refl
      guarded true false c d = refl
      guarded true true false d = refl
      guarded true true true false = refl
      guarded true true true true = refl

  abbrev pub elf_ok : Bool
  elf_ok =
      leb elf.ehdr_size (length file)
      && (ident_ok ehdr_of
          && (headers_ok ehdr_of ehdr_of.e_phnum 0
              && not (is_empty elf (segments_of ehdr_of ehdr_of.e_phnum 0))))

  abbrev pub image_of : ElfImage
  image_of = record {
    machine = ehdr_of.e_machine;
    entry = ehdr_of.e_entry;
    segments = segments_of ehdr_of ehdr_of.e_phnum 0;
  }

  -- The end of `read_elf`.
  abbrev with_segments : Ehdr → List ElfSegment → ElfImage
  with_segments h segments = record {
    machine = h.e_machine;
    entry = h.e_entry;
    segments = segments;
  }

  abbrev finish : Ehdr → List ElfSegment → Result ElfImage
  finish h segments =
      guard (not (is_empty elf segments)) "ELF has no loadable segments"
      >> ok (with_segments h segments)

  abbrev finished : Ehdr → Option (List ElfSegment) → Option ElfImage
  finished h none = none
  finished h (some segments) = when (not (is_empty elf segments)) (some (with_segments h segments))

  accepted-finish :
      (h : Ehdr) (r : Result (List ElfSegment))
      → accepted (r >>= finish h) ≡ finished h (accepted r)
  accepted-finish h (ok segments) =
      accepted-guard (not (is_empty elf segments)) "ELF has no loadable segments"
        (ok (with_segments h segments))
  accepted-finish h (thrown e) = refl

  all_joined :
      (a b c d : Bool) (h : Ehdr) (segments : List ElfSegment)
      → not (is_empty elf segments) ≡ d
      → when a (when b (finished h (when c (some segments))))
        ≡ when (a && (b && (c && d))) (some (with_segments h segments))
  all_joined false b c d h segments e = refl
  all_joined true false c d h segments e = refl
  all_joined true true false d h segments e = refl
  all_joined true true true d h segments e = ap (λ b. when b (some (with_segments h segments))) e

  -- A file is accepted exactly if its header is that of a 32-bit little-endian ELF file, every
  -- program header lies in the file and so do the contents of every segment to load, which are not
  -- longer than the segment, and there is a segment to load; the image has the machine and the entry
  -- of the header and, in the order of their headers, the segments, each its contents and then zeros.
  pub accepted-read_elf :
      accepted (read_elf elf (some file)) ≡ (if elf_ok then some image_of else none)
  unfolding read_elf
  accepted-read_elf =
      let h = ehdr_of in
      let start : 0 + elf.ehdr_size ≡ elf.ehdr_size = omega arith in
      let here = leb elf.ehdr_size (length file) in
      let segments = segments_of h h.e_phnum 0 in
      accepted-read_at elf.ehdr elf.ehdr_size file 0 (λ header.
        validate elf header >> (read_segments elf header.e_phnum 0 header file >>= finish header))
      ∙ ap
          (λ n.
            when (leb n (length file))
              (accepted (validate elf h >> (read_segments elf h.e_phnum 0 h file >>= finish h))))
          start
      ∙ ap (when here) (
          accepted-validate h (read_segments elf h.e_phnum 0 h file >>= finish h)
          ∙ ap (when (ident_ok h)) (
              accepted-finish h (read_segments elf h.e_phnum 0 h file)
              ∙ ap (finished h) (accepted-read_segments h.e_phnum 0 h)))
      ∙ all_joined here (ident_ok h) (headers_ok h h.e_phnum 0) (not (is_empty elf segments)) h
          segments refl
