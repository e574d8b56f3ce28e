-- ===== src/Copies.antt =====
-- The deep copies of the resources: api/v1alpha1/zz_generated.deepcopy.go, and the two that
-- internal/managers/v2fly/structs.go adds by hand. They are about shared memory, so the structs
-- here hold addresses where those of Api hold values.
pub mod Heap
pub mod Structs
pub mod Cells
pub mod Machinery
pub mod Independent
pub mod Shared
pub mod V2ray
pub mod V2rayClient
pub mod V2rayClientList
pub mod V2rayClientSpec
pub mod V2rayClientStatus
pub mod V2rayInstanceConfig
pub mod V2rayList
pub mod V2rayNodeAffinity
pub mod V2rayNodeInfo
pub mod V2rayNodeList
pub mod V2rayRegionAffinity
pub mod V2raySpec
pub mod V2rayStatus
pub mod V2rayUser
pub mod V2rayUserInfo
pub mod V2rayUserList
pub mod V2rayUserSpec
pub mod V2rayUserStatus
