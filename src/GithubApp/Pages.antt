-- ===== src/GithubApp/Pages.antt =====
-- ListPRFiles (internal/githubapp/client.go): the files of all pages.
use agent_frei_igi.Prelude.{
  ◌≡◌, ◌↔◌, refl, ap, false, Text, is_empty, List, [], ◌∷◌, ◌++◌, map, Result, ok, err, Error, ◌==◌,
  ==_iff, Bool-cases, inl, inr, arith, ◌⊎◌,
}
use agent_frei_igi.Domain.{ChangedFile}
use agent_frei_igi.GithubApp.{
  Reply, no_response, response, Page, page_of, changed_file, Pages, add_page, with_page, list_pages,
}
use agent_frei_igi.GithubApp.Links.{parse_next_page_url}

-- Each page links to the URL of the next one, the last to none.
abbrev pub IsChain : Text → List Page → Type 0
IsChain url [] = url ≡ []
IsChain url (p ∷ ps) = (is_empty url ≡ false) × IsChain (parse_next_page_url p.link) ps

abbrev pub served : Page → Reply Page
served p = response 200 (ok p)

abbrev pub all_files : List Page → List ChangedFile
all_files [] = []
all_files (p ∷ ps) = map changed_file p.files ++ all_files ps

list_pages-chain :
    (url : Text) (ps : List Page) (rest : List (Reply Page))
    → IsChain url ps
    → list_pages url (map served ps ++ rest) ≡ (ok (all_files ps), rest)
unfolding list_pages
list_pages-chain [] [] rest h = refl
list_pages-chain (u ∷ url) [] rest h = absurd (cc)
list_pages-chain [] (p ∷ ps) rest h = absurd (cc (h.0))
list_pages-chain (u ∷ url) (p ∷ ps) rest h =
    rw (list_pages-chain (parse_next_page_url p.link) ps rest h.1) refl

Result-cases {ℓ} :
    {A : Type ℓ} (r : Result A) → ((e : Error) × (r ≡ err e)) ⊎ ((a : A) × (r ≡ ok a))
Result-cases (err e) = inl (e, refl)
Result-cases (ok a) = inr (a, refl)

page_of-served : (r : Reply Page) {p : Page} → page_of r ≡ ok p → r ≡ served p
page_of-served (no_response e) h = cc
page_of-served (response status (err e)) h = ground arith
page_of-served (response status (ok q)) {p} h = elim (Bool-cases (status == 200)) [
  | inl fine ↦
      let is_200 = (==_iff status 200).0 fine in
      let same : q ≡ p = ground arith in rw (is_200, same) refl
  | inr bad ↦ absurd (cc (rw bad at h))
]

-- How a list of files came about.
pub record Listing (url : Text) (rs : List (Reply Page)) (files : List ChangedFile)
    (rest : List (Reply Page)) : Type 0 where
  pub pages : List Page
  pub chain : IsChain url pages
  pub replies : rs ≡ map served pages ++ rest
  pub whole : files ≡ all_files pages

add_page-ok :
    (page : Page) (out : Pages) {files : List ChangedFile} {rest : List (Reply Page)}
    → add_page page out ≡ (ok files, rest)
    → (more : List ChangedFile) × (out ≡ (ok more, rest))
      × (files ≡ map changed_file page.files ++ more)
add_page-ok page (err e, rs) h = absurd (cc (ap (λ p. p.0) h))
add_page-ok page (ok more, rs) h =
    (more, ap (λ q. (ok more, q)) (ap (λ p. p.1) h), cc (ap (λ p. p.0) h))

followed-Listing :
    (url : Text) (r : Reply Page) (rs : List (Reply Page)) (x : Result Page)
    {files : List ChangedFile} {rest : List (Reply Page)}
    → is_empty url ≡ false
    → page_of r ≡ x
    → ((page : Page) (more : List ChangedFile)
        → list_pages (parse_next_page_url page.link) rs ≡ (ok more, rest)
        → Listing (parse_next_page_url page.link) rs more rest)
    → with_page x rs (λ page. list_pages (parse_next_page_url page.link) rs) ≡ (ok files, rest)
    → Listing url (r ∷ rs) files rest
followed-Listing url r rs (err e) present e' ih h = absurd (cc (ap (λ p. p.0) h))
followed-Listing url r rs (ok page) present got ih h =
    let (more, later, files) = add_page-ok page (list_pages (parse_next_page_url page.link) rs) h in
    let l = ih page more later in
    record {
      pages = page ∷ l.pages;
      chain = (present, l.chain);
      replies = rw (page_of-served r got) (ap (λ q. served page ∷ q) l.replies);
      whole = rw (← l.whole) files;
    }

list_pages-Listing :
    (url : Text) (rs : List (Reply Page)) {files : List ChangedFile} {rest : List (Reply Page)}
    → list_pages url rs ≡ (ok files, rest)
    → Listing url rs files rest
unfolding list_pages
list_pages-Listing [] rs h = record {
  pages = [];
  chain = refl;
  replies = ap (λ p. p.1) h;
  whole = cc (ap (λ p. p.0) h);
}
list_pages-Listing (u ∷ url) [] h = absurd (cc (ap (λ p. p.0) h))
list_pages-Listing (u ∷ url) (r ∷ rs) {files} {rest} h =
    followed-Listing (u ∷ url) r rs (page_of r) refl refl
      (λ page more e.
        list_pages-Listing (parse_next_page_url page.link) rs {files = more} {rest = rest} e)
      h

-- A listing succeeds exactly when the server serves a chain of pages, each linking to the next and the
-- last to none; the files are then those of all pages, in order, and no other reply is used.
pub list_pages_iff :
    (url : Text) (rs : List (Reply Page)) (files : List ChangedFile) (rest : List (Reply Page))
    → (list_pages url rs ≡ (ok files, rest)) ↔ Listing url rs files rest
list_pages_iff url rs files rest = (
  list_pages-Listing url rs,
  λ l. rw (l.replies, l.whole) (list_pages-chain url l.pages rest l.chain),
)
