-- ===== src/GithubApp/Links.antt =====
-- internal/githubapp/client.go, parseNextPageURL: the next page in a Link header.
use agent_frei_igi.Prelude.{
  ◌-◌, ◌≡◌, refl, ◌&&◌, Text, bytes, List, [], ◌∷◌, length, take, drop, Option, none, some,
  has_prefix, has_suffix, contains, trim_space, split, is_empty, if◌then◌else◌, get_or_else,
}

-- The URL between angle brackets, if the part has both.
abbrev between_brackets : Text → Option Text
between_brackets url =
    if has_prefix url (bytes "<") && has_suffix url (bytes ">")
    then some (take (length url - 2) (drop 1 url))
    else none

-- One part of the header: at least two sections, the second with rel="next".
abbrev part_url : List Text → Option Text
part_url [] = none
part_url (url ∷ []) = none
part_url (url ∷ attribute ∷ more) =
    if contains attribute (bytes "rel=\"next\"") then between_brackets (trim_space url) else none

unfoldable pub first_next : List Text → Text
first_next [] = []
first_next (p ∷ ps) = get_or_else (first_next ps) (part_url (split b';' p)) (λ url. url)

-- parseNextPageURL
unfoldable pub parse_next_page_url : Text → Text
unfolding first_next
parse_next_page_url header = if is_empty header then [] else first_next (split b',' header)

example :
    parse_next_page_url (bytes "<http://a?page=1>; rel=\"prev\", <http://a?page=2>; rel=\"next\"")
    ≡ bytes "http://a?page=2"
unfolding parse_next_page_url has_prefix has_suffix contains trim_space split
example = refl
