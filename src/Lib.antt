-- ===== src/Lib.antt =====
-- Yohira, a port of ASP.NET Core to TypeScript: its byte streams, its symmetric encryption, its
-- route patterns, the matching of a request's path to an endpoint, its HTTP header values, and its
-- authentication tickets.
--
-- Base models packages/base/src. Base/MemoryStream is MemoryStream.ts: a record of the object's
-- fields, and a function for each method, which takes the object's state and gives a value or the
-- error thrown, with the state left behind (Common/Actions). Base/MemoryStream/Contents says what
-- a stream stands for, a list of bytes, Refinement and Reading that its methods do to it what they
-- promise, and Reachable what holds through its life. Base/BinaryWriter and Base/BinaryReader are
-- BinaryWriter.ts and BinaryReader.ts over such a stream; Base/RoundTrip is one after the other.
-- Base/TimeSpan is TimeSpan.ts.
--
-- Cryptography models packages/cryptography/src. SymmetricPadding is SymmetricPadding.ts;
-- OpenSslCipher is OpenSslCipher.ts with OpenSslCipherLite.ts and BasicSymmetricCipher.ts, where
-- what Node's cipher does is a parameter; CryptoTransform is UniversalCryptoTransform.ts, which
-- pads, calls that cipher, and holds a block over between calls. Blockwise says what the theorems
-- rely on of the cipher.
--
-- Routing models packages/routing/src/matching. Tokenizer is FastPathTokenizer.ts; JumpTables are
-- the jump tables and JumpTableBuilder.ts; Candidates is CandidateSet.ts; Selector is
-- DefaultEndpointSelector.ts; EndpointComparer is EndpointComparer.ts; DfaMatcher is
-- DfaMatcher.ts, which tokenizes the path, goes from state to state by the tables, and lets the
-- selector choose. DfaMatcherBuilder is DfaMatcherBuilder.ts over the nodes of DfaNode.ts, a data
-- type of trees: Tree and Tree/Worker are its worker, which grows the tree from the endpoints, a
-- level at a time, and addNode numbers the nodes and fills the array of states that the matcher
-- runs on. Layout says which states these are, Walk what a path is in the tree, Stands and Arrival
-- follow the matcher in the array, and Matching follows it to the selector's answer. Tree/Growth
-- and Tree/Levels show that the worker makes such trees, and Tree/Requests goes from the endpoints
-- to the answer. Routing/Patterns models packages/routing/src/patterns: the parts of a pattern
-- with their text, RouteParameterParser.ts, and RoutePatternFactory.ts, with computeInbound of
-- template/RoutePrecedence.ts, which Patterns/Precedence is about; Patterns/Parser is
-- RoutePatternParser.ts, where the index that its context moves is an argument and a result,
-- Scanning, Parameters, Segments and Forms follow it over the text of a pattern, and Progress,
-- Checks and Ends over any text. A precedence is an exact decimal, where the code adds its
-- fractions in floating point.
--
-- HttpHeaders models packages/http.headers/src. Rules is HttpRuleParser.ts; Utilities is
-- HeaderUtilities.ts with BaseHeaderParser.ts and HttpHeaderParser.ts, whose abstract method is
-- the field of a record; NameValue is NameValueHeaderValue.ts; CacheControl is the state and the
-- text of CacheControlHeaderValue.ts, and Directives its parser, which calls that of the names and
-- values. An Out argument is a part of the result, a Ref argument an argument and a part of the
-- result.
--
-- DataProtection models packages/data-protection/src: KeyResolver is
-- key-management/DefaultKeyResolver.ts, which picks the key to protect with from a list of keys.
--
-- Authentication models packages/authentication/src: TicketSerializer is TicketSerializer.ts, with
-- what it reads and makes of packages/base/src/Claim.ts and ClaimsIdentity.ts, and
-- PropertiesSerializer is PropertiesSerializer.ts. Both run over Base's writer and reader; Entries
-- is the loop over a map that they share, Memory the stream that each makes for itself.
-- SecureDataFormat is SecureDataFormat.ts over any serializer and protector; the ticket's
-- serializer is one.
--
-- Primitives models packages/extensions.primitives/src: StringSegment is StringSegment.ts. The
-- header parsers call it on whole strings, and their model reads the list of code units instead.
--
-- Common holds what they share: Boolean tests, lists, integers, buffers, texts and positions in
-- them, results and actions.
--
-- Numbers that the code keeps non-negative are naturals; others are integers. Bytes are not
-- bounded unless a definition bounds them. A string is the list of its code units, or of its UTF-8
-- bytes where it is written to a stream. Random bytes, localeCompare, policies, whether a key
-- gives an encryptor, protectors, base64url, and for routes toLowerCase are parameters; so are
-- Number and toString on numbers, of which IsExact says what the header relies on. Header names
-- are lowered in ASCII alone.
--
-- The loops that read a text get a turn more than it has characters, and each turn reads one at
-- least. An identity of a ticket may hold an actor, which is one: as many turns as the data has
-- bytes are enough, of which each identity takes one at least. Two other loops run on fuel. A
-- 7-bit integer has at most five groups, for which five turns are enough. The policies' tables get
-- as many turns as there are states, which are enough if each leads to a later state, as in the
-- states that the matcher's builder makes.
--
-- Not modelled: the other packages, which are input and output over Node, registrations, copies of
-- other projects' libraries, or not reached yet; of these packages, logging, the descriptions for
-- a debugger but for those of route patterns, hash codes, copying one stream to another, the
-- making of Node's cipher objects, the node builder policies that the matcher's builder applies to
-- its tree.
pub mod Common
pub mod Base
pub mod Cryptography
pub mod Routing
pub mod DataProtection
pub mod HttpHeaders
pub mod Authentication
pub mod Primitives
