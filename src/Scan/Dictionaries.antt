-- ===== src/Scan/Dictionaries.antt =====
-- internal/scan/ner.go: the dictionaries of the recogniser, as the lists of their keys.
use datafog.Prelude.{String, List, [], ◌∷◌}

-- what stands before a person's name
unfoldable pub person_triggers : List String
person_triggers =
    "mr" ∷ "mr." ∷ "mrs" ∷ "mrs." ∷ "ms" ∷ "ms." ∷ "dr" ∷ "dr." ∷ "prof" ∷ "prof." ∷ "sir" ∷ "madam"
    ∷ "captain" ∷ "capt" ∷ "capt." ∷ []

-- what an organization's name ends with
unfoldable pub org_suffixes : List String
org_suffixes =
    "inc" ∷ "inc." ∷ "corp" ∷ "corp." ∷ "corporation" ∷ "llc" ∷ "llp" ∷ "ltd" ∷ "ltd." ∷ "co"
    ∷ "co." ∷ "company" ∷ "group" ∷ "holdings" ∷ "foundation" ∷ "institute" ∷ "university"
    ∷ "association" ∷ "technologies" ∷ "systems" ∷ "partners" ∷ "labs" ∷ "studios" ∷ []

-- what stands before a location's name
unfoldable pub location_triggers : List String
location_triggers = "in" ∷ "at" ∷ "from" ∷ "near" ∷ "city" ∷ "state" ∷ "town" ∷ []

unfoldable pub common_first_names : List String
common_first_names =
    "james" ∷ "john" ∷ "robert" ∷ "michael" ∷ "william" ∷ "david" ∷ "richard" ∷ "joseph" ∷ "thomas"
    ∷ "charles" ∷ "christopher" ∷ "daniel" ∷ "matthew" ∷ "anthony" ∷ "mark" ∷ "donald" ∷ "steven"
    ∷ "paul" ∷ "andrew" ∷ "joshua" ∷ "mary" ∷ "patricia" ∷ "jennifer" ∷ "linda" ∷ "elizabeth"
    ∷ "barbara" ∷ "susan" ∷ "jessica" ∷ "sarah" ∷ "karen" ∷ "nancy" ∷ "lisa" ∷ "margaret" ∷ "betty"
    ∷ "sandra" ∷ "ashley" ∷ "emily" ∷ "donna" ∷ "michelle" ∷ "dorothy" ∷ "alice" ∷ "jane" ∷ "alex"
    ∷ "sam" ∷ "benjamin" ∷ "alexander" ∷ "peter" ∷ "george" ∷ "edward" ∷ "henry" ∷ "jack" ∷ "oliver"
    ∷ "emma" ∷ "sophia" ∷ "ava" ∷ "isabella" ∷ []

unfoldable pub well_known_locations : List String
well_known_locations =
    "new york" ∷ "los angeles" ∷ "chicago" ∷ "houston" ∷ "phoenix" ∷ "philadelphia" ∷ "san antonio"
    ∷ "san diego" ∷ "dallas" ∷ "san jose" ∷ "san francisco" ∷ "seattle" ∷ "denver" ∷ "boston"
    ∷ "nashville" ∷ "washington" ∷ "atlanta" ∷ "miami" ∷ "london" ∷ "paris" ∷ "tokyo" ∷ "berlin"
    ∷ "sydney" ∷ "toronto" ∷ "mumbai" ∷ "beijing" ∷ "shanghai" ∷ "singapore" ∷ "dubai" ∷ "amsterdam"
    ∷ "california" ∷ "texas" ∷ "florida" ∷ "new jersey" ∷ "virginia" ∷ "massachusetts"
    ∷ "united states" ∷ "united kingdom" ∷ "canada" ∷ "australia" ∷ "germany" ∷ "france" ∷ "japan"
    ∷ "china" ∷ "india" ∷ "brazil" ∷ []
